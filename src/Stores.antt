-- ===== src/Stores.antt =====
-- The small stores of a pod: its requests, its operations and its connections.
pub mod Metrics
pub mod Requests
pub mod Operations
pub mod Connections
