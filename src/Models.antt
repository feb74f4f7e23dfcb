-- ===== src/Models.antt =====
-- The models of one pod: the store of their instances.
pub mod Store
pub mod Manager
pub mod Samples
