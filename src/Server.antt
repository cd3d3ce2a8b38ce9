-- ===== src/Server.antt =====
-- src/libs/server: the proxy server.
pub mod Socket
pub mod Target
pub mod Handlers
pub mod Proxy
pub mod Handles
pub mod HeaderTransform
pub mod Replies
pub mod Setup
