-- ===== src/Examples.antt =====
-- Concrete states of the parts, and the theorems applied to them.
mod ManagerRuns
mod Screens
mod Frames
mod Devices
mod Receiving
mod Rotating
mod Serving
mod Commands
mod Injecting
mod Announcing
mod Dialling
mod Outputs
