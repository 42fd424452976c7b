-- ===== src/Io.antt =====
-- src/io: files and connections.
pub mod FileCalls
pub mod Tcp
