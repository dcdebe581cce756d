-- ===== src/Universes.antt =====
-- `src/alpaca_connectors/universes`: the sources of ETF holdings and the universes built from them.
pub mod Effects
pub mod Registry
pub mod Sources
pub mod Seeding
pub mod Materialized
pub mod Calls
pub mod Rollback
pub mod Removal
pub mod Reconciled
