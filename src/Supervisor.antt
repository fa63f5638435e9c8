-- ===== src/Supervisor.antt =====
-- src/supervisor: the executor that runs the actors, and the dispatcher of interrupts.
pub mod Executor
pub mod Interrupts
pub mod Mount
pub mod Preemption
mod Tests
