-- ===== src/Alloc.antt =====
-- src/alloc: the heap allocator, and the counted references that stand on it.
pub mod Align
pub mod Layout
pub mod Hole
pub mod Heap
pub mod Objects
pub mod Rc
mod Tests
