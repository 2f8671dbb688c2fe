-- ===== src/Adc.antt =====
-- src/adc: session identifiers and messages.
pub mod Sid
pub mod Escape
pub mod Message
mod Tests
