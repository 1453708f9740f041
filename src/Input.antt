-- ===== src/Input.antt =====
-- internal/input: what stands beside the capture of the devices.
pub mod Switch
pub mod Contract
pub mod Places
pub mod View
pub mod Removal
pub mod Moves
pub mod Refinement
pub mod Aggregator
pub mod RateLimit
pub mod EdgeDetector
pub mod Debounce
