-- ===== src/Protocol.antt =====
-- engine/src/protocol: the data that the queue engine works on.
pub mod Json
pub mod Job
pub mod Builder
