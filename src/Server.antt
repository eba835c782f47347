-- ===== src/Server.antt =====
-- crates/server/src: the HTTP server.
pub mod Permissions
