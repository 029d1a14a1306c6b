-- ===== src/Agents.antt =====
-- capstone/agent: the agents that the controller can drive.
pub mod Baseline
pub mod Hybrid
pub mod Student
pub mod Rules
pub mod Oracle
