-- ===== src/Scheduler.antt =====
-- apps/backend/src/services/pod-scheduler.ts: placement of models onto the GPUs of the cluster, and the
-- reconciliation of a preset with what is loaded.
pub mod Slots
pub mod Place
pub mod Reconcile
mod Examples
