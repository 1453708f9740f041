-- ===== src/Ipc.antt =====
-- internal/ipc: the commands that another process sends to a running server or client.
pub mod Messages
pub mod Socket
pub mod Client
pub mod Handlers
pub mod Exchange
pub mod Termination
