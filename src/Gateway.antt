-- ===== src/Gateway.antt =====
-- The gateway of src/cyrene_exchange: what it assembles from a provider's chunks, how it streams them,
-- and how it falls back over the planned routes.
pub mod Usage
pub mod Messages
pub mod Fragments
pub mod Stream
pub mod StreamAudit
pub mod Chat
pub mod Attempts
pub mod Handled
pub mod Bounds
pub mod Consumed
pub mod Embeddings
pub mod Embedded
pub mod Recorder
pub mod Recorded
pub mod Tests
