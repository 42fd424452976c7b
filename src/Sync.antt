-- ===== src/Sync.antt =====
-- src/sync: what coroutines wait on.
pub mod Interruptor
pub mod WaitObject
pub mod Semaphore
pub mod Time
pub mod MultipleWait
pub mod Mutex
pub mod Event
pub mod SingleTimer
pub mod PeriodicTimer
pub mod Drainer
pub mod Promise
pub mod PromiseVoid
