-- ===== src/Controller.antt =====
-- capstone/agent/controller.py: the deterministic wrapper around whatever agent is driving.
pub mod Toy
mod Tests
pub mod State
pub mod Mask
pub mod Failsafe
pub mod Apply
pub mod Choose
pub mod Run
pub mod Permits
pub mod Allowed
pub mod Budget
pub mod Retry
pub mod Safety
pub mod Silence
pub mod Accounts
pub mod Recovery
pub mod Holds
