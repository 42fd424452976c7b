-- ===== src/Containers.antt =====
-- src/containers: the buffers that messages travel in.
pub mod Buffer
pub mod Arena
pub mod Intrusive
pub mod Mpsc
