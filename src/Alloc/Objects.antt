-- ===== src/Alloc/Objects.antt =====
-- `CortexMHeap` (src/alloc/cortex_m/mod.rs) and `Box` (src/alloc/mod.rs): blocks that begin with a
-- header of 8 bytes, their layout, so that an object is freed by its address alone. Each call runs in
-- a critical section. The sizes of types are those of the compiler; the values are not kept.
pub mod Headers
pub mod Clients
use drogue_device.Base.{
  ℕ, ◌==◌, if◌then◌else◌, Option, none, some, Outcome, done, ◌>>=◌, unwrap, add_usize, sub_usize,
}
use drogue_device.Alloc.Layout.{Layout, from_size_align}
use drogue_device.Alloc.Heap.{Heap, allocate_first_fit, deallocate}
use drogue_device.Alloc.Heap

-- The heap, and the headers in memory.
pub record CortexMHeap : Type 0 where
  pub heap : Heap
  pub headers : ℕ → Option Layout

-- `CortexMHeap::new`
unfoldable pub new : ℕ → ℕ → Outcome CortexMHeap
new heap_bottom heap_size = do
  heap ← Heap.new heap_bottom heap_size
  done (record { heap = heap; headers = λ ptr. none })

unfoldable pub used : CortexMHeap → ℕ
used g = g.heap.used

unfoldable pub free : CortexMHeap → ℕ
free g = Heap.free g.heap

-- A null pointer is `none`.
unfoldable pub alloc : Layout → CortexMHeap → Outcome (Option ℕ × CortexMHeap)
alloc layout g = do
  (ptr, heap) ← allocate_first_fit g.heap layout
  done (ptr, record g { heap = heap })

unfoldable pub dealloc : ℕ → Layout → CortexMHeap → Outcome CortexMHeap
dealloc ptr layout g = do heap ← deallocate g.heap ptr layout; done (record g { heap = heap })

abbrev pub size_of_layout : ℕ
size_of_layout = 8

abbrev pub write_header : ℕ → Layout → (ℕ → Option Layout) → ℕ → Option Layout
write_header ptr layout headers p = if p == ptr then some layout else headers p

abbrev pub init : Layout → Option ℕ × CortexMHeap → Option ℕ × CortexMHeap
init layout (none, g) = (none, g)
init layout (some allocation, g) = (
  some (add_usize allocation size_of_layout),
  record g { headers = write_header allocation layout g.headers },
)

-- `alloc_init`, for the size and the alignment of `(Layout, T)`.
unfoldable pub alloc_init : Layout → CortexMHeap → Outcome (Option ℕ × CortexMHeap)
alloc_init pair g = do
  layout ← unwrap (from_size_align pair.size pair.align)
  res ← alloc layout g
  done (init layout res)

-- A header that was never written is not to be read: a panic here.
unfoldable pub dealloc_object : ℕ → CortexMHeap → Outcome CortexMHeap
dealloc_object ptr g =
    let head_ptr = sub_usize ptr size_of_layout in
    do layout ← unwrap (g.headers head_ptr); dealloc head_ptr layout g

-- `Box::drop`
unfoldable pub drop : ℕ → CortexMHeap → Outcome CortexMHeap
drop pointer g = dealloc_object pointer g
