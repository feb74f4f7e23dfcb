-- ===== src/Processes.antt =====
-- The processes of the operating system: the tree that they form, and those that no instance owns.
pub mod Children
pub mod Orphans
mod Examples
