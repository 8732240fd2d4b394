-- ===== src/Market.antt =====
-- Market data (src/quantora_trade/market_data): the quality of candles.
pub mod Quality
mod Tests
