-- ===== src/Portfolios.antt =====
-- `src/alpaca_connectors/portfolios/configurations.py`: the configurations of rebalancing and of
-- portfolios.
pub mod Checks
pub mod Rebalance
pub mod Configurations
pub mod Valid
