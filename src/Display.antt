-- ===== src/Display.antt =====
-- internal/display/monitor.go: the monitors of this machine, and the screen edges.
pub mod Monitor
pub mod Edges
pub mod Primary
pub mod WlrRandr
pub mod Backends
