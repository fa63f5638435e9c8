-- ===== src/Sync.antt =====
-- src/synchronization: signals, mutexes and semaphores.
pub mod Signal
pub mod Mutex
pub mod Semaphore
mod Tests
