-- ===== src/Infrastructure.antt =====
-- What the infrastructure keeps (src/quantora_trade/infrastructure/database).
pub mod Journal
pub mod Commands
mod Tests
