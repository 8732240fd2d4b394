-- ===== src/Application.antt =====
-- The application layer (src/quantora_trade/application).
pub mod Worker
pub mod Consumer
mod Tests
