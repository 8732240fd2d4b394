-- ===== src/Domain.antt =====
-- The domain (src/quantora_trade/domain): enumerations, instants and what the standard library
-- renders and hashes.
pub mod Time
pub mod Enums
pub mod Libs
pub mod Orders
pub mod Candles
