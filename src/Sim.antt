-- ===== src/Sim.antt =====
-- capstone/sim/refsim.py: the reference simulator. Python's `math` and `random.Random` are parameters,
-- and an operation that can raise returns an Option.
pub mod Radio
pub mod State
pub mod World
pub mod Jamming
pub mod Link
pub mod Step
pub mod Actions
mod Frame
mod Total
pub mod Ticks
pub mod Order
mod Peers
pub mod Ready
pub mod Safe
pub mod Toy
mod Tests
