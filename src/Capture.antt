-- ===== src/Capture.antt =====
-- internal/input/all_devices_capture.go: the capture of the input devices on the server.
pub mod State
pub mod Target
pub mod Events
pub mod Devices
pub mod Grabs
pub mod Keys
pub mod Motion
pub mod Scan
