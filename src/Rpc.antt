-- ===== src/Rpc.antt =====
-- src/rpc: messages, and how values are written into them and read back.
pub mod Stream
pub mod Wire
pub mod Serializer
pub mod Integral
pub mod Stl
pub mod Message
pub mod Exchange
pub mod Hub
