-- ===== src/Network.antt =====
-- internal/network: the framing of messages and the SSH server's sessions.
pub mod Frame
pub mod Receive
pub mod Sessions
pub mod Whitelist
pub mod Admission
pub mod Loop
pub mod RoundTrip
pub mod Progress
pub mod Keys
pub mod Dial
pub mod Cleanup
