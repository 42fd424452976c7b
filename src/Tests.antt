-- ===== src/Tests.antt =====
-- Runs of the definitions, and the theorems at concrete inputs.
pub mod Shutdowns
pub mod Files
pub mod Inboxes
pub mod Interruptors
pub mod Dispatchers
pub mod Messages
pub mod Semaphores
pub mod Containers
pub mod Timers
pub mod Waits
pub mod Arenas
pub mod Threads
pub mod Drains
pub mod Hubs
pub mod Promises
pub mod Barriers
pub mod Flips
pub mod Periodics
pub mod Streams
pub mod Queues
