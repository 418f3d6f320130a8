-- ===== src/Voice.antt =====
-- backend/app/services/voice.
pub mod SmartPause
pub mod Providers
pub mod Fallback
pub mod Costs
pub mod Turns
pub mod Debounce
pub mod Sentences
mod Tests
