-- ===== src/Execution.antt =====
-- Order execution: `src/alpaca_connectors/execution`.
pub mod Orders
pub mod Effects
pub mod Broker
pub mod Checks
pub mod Batch
pub mod Persist
pub mod Services
