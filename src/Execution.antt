-- ===== src/Execution.antt =====
-- PAPER execution (src/quantora_trade/execution).
pub mod Models
pub mod Lifecycle
pub mod Paper
pub mod Repository
pub mod Durable
mod Tests
