-- ===== src/Cluster.antt =====
-- The cluster: known peers, the routing table, heartbeats, leader election.
pub mod Auth
pub mod PeerStore
pub mod RoutingStore
pub mod Heartbeat
pub mod Election
pub mod Lease
pub mod Discovery
pub mod Manager
pub mod Redirect
pub mod Events
pub mod Samples
mod Examples
mod ManagerExamples
mod StoreExamples
mod LeaseExamples
