-- ===== src/Moves.antt =====
-- Moves of a model to other GPUs: the store of their operations, and the service that carries them out.
pub mod Store
pub mod Mover
