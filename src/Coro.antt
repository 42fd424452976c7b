-- ===== src/Coro.antt =====
-- src/coro: the event loop and its timers.
pub mod TimerList
pub mod Barrier
pub mod Shutdown
pub mod Dispatcher
pub mod FileEvents
