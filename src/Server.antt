-- ===== src/Server.antt =====
-- internal/server: the assembly of the server, and its emergency release.
pub mod State
pub mod Emergency
pub mod Release
pub mod Connections
pub mod Announcement
