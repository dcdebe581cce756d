-- ===== src/Account.antt =====
-- `src/alpaca_connectors/account`: the keys and the registrations of accounts, and the requests for
-- a person to enter Alpaca keys.
pub mod KeyRequests
pub mod Credentials
pub mod Registrations
