-- ===== src/Risk.antt =====
-- The risk layer (src/quantora_trade/risk).
pub mod KillSwitch
pub mod Approval
pub mod Submission
pub mod Decision
mod Tests
