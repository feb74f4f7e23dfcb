-- ===== src/Http.antt =====
-- The hooks and handlers of the HTTP server.
pub mod Users
pub mod Keys
pub mod ClusterModels
mod Examples
