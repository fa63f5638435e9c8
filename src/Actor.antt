-- ===== src/Actor.antt =====
-- src/actor.rs, src/handler.rs and src/supervisor: actors, their mailboxes and the executor.
pub mod Code
pub mod Item
pub mod Handle
pub mod Request
pub mod Context
mod Tests
