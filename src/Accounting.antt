-- ===== src/Accounting.antt =====
-- PAPER accounting (src/quantora_trade/accounting).
pub mod Models
pub mod Ledger
mod Tests
