-- ===== src/Operations.antt =====
-- `src/alpaca_connectors/operations`: the Jobs that run signal and portfolio configurations.
pub mod ConfigurationJobs
pub mod SignalJobs
