-- ===== src/Manager.antt =====
-- internal/server/manager.go: the client manager, which decides which machine the input goes to.
pub mod State
pub mod Cursor
pub mod Switch
pub mod Clients
pub mod Route
pub mod Rotation
pub mod Core
pub mod Invariant
pub mod Steps
pub mod Lifecycle
pub mod Reach
pub mod Runs
pub mod Bounds
pub mod Confine
pub mod MainMonitor
pub mod Targets
pub mod Cooldown
pub mod Status
