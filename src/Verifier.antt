-- ===== src/Verifier.antt =====
-- capstone/verify/verifier.py: the scorecard of an episode, and of a corpus.
pub mod Score
pub mod Claims
pub mod Detection
pub mod Aggregate
pub mod Confusion
pub mod Envelope
pub mod Ratios
mod Tests
