-- ===== src/Server.antt =====
-- internal: the parts of the node's server.
pub mod Hub
pub mod Sessions
pub mod Registry
pub mod Routing
