-- ===== src/Percept.antt =====
-- capstone/percept: what the radio reports, and the fixed-size primitives of the feature layer.
pub mod Observation
pub mod Ring
pub mod Trackers
pub mod Norm
pub mod Scans
pub mod Features
mod Tests
