-- ===== src/Rpc/Stl.antt =====
-- src/rpc/serialize_stl.hpp and serialize_stl.cc: the standard containers.
pub mod Elements
pub mod Sequence
pub mod Fixed
pub mod Ordered
pub mod Unordered
