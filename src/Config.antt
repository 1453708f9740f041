-- ===== src/Config.antt =====
-- internal/config/config.go: the configuration of server and client.
pub mod Store
