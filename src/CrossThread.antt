-- ===== src/CrossThread.antt =====
-- src/cross_thread: objects that several threads share.
pub mod CtMutex
pub mod FlipBuffer
