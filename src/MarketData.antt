-- ===== src/MarketData.antt =====
-- `src/alpaca_connectors/market_data`: what the reading of bars rests on.
pub mod Bars
