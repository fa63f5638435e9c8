-- ===== src/Alloc/Heap.antt =====
-- src/alloc/cortex_m/alloc/mod.rs: `Heap`, the hole list with the count of the bytes in use.
-- `CortexMHeap` (src/alloc/cortex_m/mod.rs) runs these functions in a critical section.
pub mod Balance
pub mod Held
pub mod Clients
use drogue_device.Base.{
  ℕ, ◌+◌, not, ltb, ◌==◌, if◌then◌else◌, Option, none, some, Outcome, done, ◌>>=◌, unwrap,
  add_usize, sub_usize,
}
use drogue_device.Alloc.Align.{align_up}
use drogue_device.Alloc.Layout.{Layout, from_size_align}
use drogue_device.Alloc.Hole.{HoleList, min_size, align_of_hole}
use drogue_device.Alloc.Hole

pub record Heap : Type 0 where
  pub bottom : ℕ
  pub size : ℕ
  pub used : ℕ
  pub holes : HoleList

unfoldable pub empty : Heap
empty = record { bottom = 0; size = 0; used = 0; holes = Hole.empty }

-- `Heap::new`, over the static array of `heap_size` bytes at `heap_bottom`.
unfoldable pub new : ℕ → ℕ → Outcome Heap
new heap_bottom heap_size = if ltb heap_size min_size then done empty else do
  holes ← Hole.new heap_bottom heap_size
  done (record { bottom = heap_bottom; size = heap_size; used = 0; holes = holes })

unfoldable pub align_layout : Layout → Outcome Layout
align_layout layout = do
  size ← align_up (if ltb layout.size min_size then min_size else layout.size) align_of_hole
  unwrap (from_size_align size layout.align)

abbrev count_used : Heap → ℕ → Option ℕ × HoleList → Option ℕ × Heap
count_used heap size (none, holes) = (none, record heap { holes = holes })
count_used heap size (some addr, holes) =
    (some addr, record heap { used = add_usize heap.used size; holes = holes })

-- `Err(())` is `none`.
unfoldable pub allocate_first_fit : Heap → Layout → Outcome (Option ℕ × Heap)
allocate_first_fit heap layout = do
  aligned_layout ← align_layout layout
  res ← Hole.allocate_first_fit heap.holes aligned_layout
  done (count_used heap aligned_layout.size res)

unfoldable pub deallocate : Heap → ℕ → Layout → Outcome Heap
deallocate heap ptr layout = do
  aligned_layout ← align_layout layout
  holes ← Hole.deallocate heap.holes ptr aligned_layout.size
  done (record heap { used = sub_usize heap.used aligned_layout.size; holes = holes })

unfoldable pub top : Heap → ℕ
top heap = add_usize heap.bottom heap.size

unfoldable pub free : Heap → ℕ
free heap = sub_usize heap.size heap.used
