-- ===== src/Execution/Orders.antt =====
-- `src/alpaca_connectors/execution/orders.py`: the batch contract, the translation of Alpaca
-- orders and the ledger rows. Quantities and prices are whole numbers of 10⁻⁹, amounts of money
-- are whole numbers of 10⁻¹⁸, and times are microseconds since the epoch. A check keeps its code
-- and the order it names; its English message is left out.
pub mod Types
pub mod Status
pub mod Rows
