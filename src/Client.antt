-- ===== src/Client.antt =====
-- internal/client/receiver.go: the receiver on the client's side.
pub mod Receiver
pub mod Control
pub mod Messages
pub mod Reconnect
pub mod VirtualInput
pub mod Injection
pub mod Buttons
pub mod Connect
pub mod Quiet
