-- ===== src/Logs.antt =====
-- The output of the model processes: its buffer, the progress of a load that is read off it, and the bus
-- that carries events to clients.
pub mod Buffer
pub mod Progress
mod Examples
pub mod Bus
