-- ===== src/Scoring.antt =====
-- Scoring an answer: backend/app/services/scoring/scorer.py and rubric.py.
pub mod Json
pub mod Rubric
pub mod Retry
pub mod Sessions
pub mod Coerce
pub mod Quotes
mod Tests
