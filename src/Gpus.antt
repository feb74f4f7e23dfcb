-- ===== src/Gpus.antt =====
-- The GPUs of a pod: the simulated ones, and the choice of GPUs for a model.
pub mod Tracker
pub mod Selector
