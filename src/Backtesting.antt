-- ===== src/Backtesting.antt =====
-- Backtesting (src/quantora_trade/backtesting): the splits of data sets.
pub mod Splits
mod Tests
