-- ===== src/Harness.antt =====
-- capstone/harness: the agent around a language model.
pub mod Loop
pub mod Parser
pub mod Mutate
