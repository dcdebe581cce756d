-- ===== src/Holdings.antt =====
-- `src/alpaca_connectors/holdings`: the positions of an account as rows, and their snapshots.
pub mod Rows
pub mod Capture
pub mod Complete
