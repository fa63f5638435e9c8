-- ===== src/Alloc/Heap/Balance.antt =====
-- `Heap`: every byte is in use or free, whatever is allocated and freed.
use drogue_device.Base.{
  ℕ, ◌+◌, ◌-◌, ◌^◌, ◌≤◌, ◌<◌, ◌≡◌, refl, true, false, [], ◌∷◌, Option, none, some, arith, done,
  if◌then◌else◌, ltb, add_usize, sub_usize,
}
use drogue_device.Alloc.Align.{
  IsAlign, IsAlign-pos, IsAlign-is_power_of_two, align_up, align_up_lem, round_up, RoundsUp,
  round_up-RoundsUp,
}
use drogue_device.Alloc.Layout.{Layout, from_size_align}
use drogue_device.Alloc.Hole.{block, min_size, align_of_hole}
use drogue_device.Alloc.Hole
use drogue_device.Alloc.Hole.Valid.{in_block, is_free, free_size}
use drogue_device.Alloc.Hole.Split.{Fits}
use drogue_device.Alloc.Hole.Contract.{Valid, AfterFree, AfterAlloc, deallocate-AfterFree}
use drogue_device.Alloc.Hole.Promises.{AllocCase, allocate_first_fit-AllocCase}
use drogue_device.Alloc.Heap.{Heap, align_layout, new, allocate_first_fit, deallocate}

abbrev pub four_align : IsAlign 4
four_align = record { shift = 2; small = omega arith; power = refl }

-- The size that `align_layout` asks for.
abbrev pub padded : ℕ → ℕ
padded size = round_up (if ltb size min_size then min_size else size) 4

pub padded-RoundsUp :
    (size : ℕ) → (size ≤ padded size) × (min_size ≤ padded size) × (padded size < size + 12)
padded-RoundsUp size =
    let r = round_up-RoundsUp (if ltb size min_size then min_size else size) 4 (omega arith) in
    ground (arith, r.above, r.near)

pub align_layout_lem :
    (layout : Layout)
    → IsAlign layout.align
    → layout.size + layout.align + 16 < 2 ^ 32
    → align_layout layout ≡ done (record { size = padded layout.size; align = layout.align })
unfolding align_layout from_size_align
align_layout_lem layout a l = ground (
  arith,
  padded-RoundsUp layout.size,
  IsAlign-pos a,
  IsAlign-is_power_of_two a,
  align_up_lem (if ltb layout.size min_size then min_size else layout.size) 4 four_align,
)

-- `lost` bytes at the bottom make the first hole aligned.
pub record HeapValid (lost : ℕ) (heap : Heap) : Type 0 where
  pub valid : Valid (heap.bottom + heap.size) heap.holes
  pub balance : heap.used + free_size heap.holes.holes + lost ≡ heap.size

-- The request does not wrap.
pub record Requests (heap : Heap) (layout : Layout) : Type 0 where
  pub align : IsAlign layout.align
  pub room : heap.bottom + heap.size + layout.align + layout.size + 32 < 2 ^ 32

abbrev pub padded_layout : Layout → Layout
padded_layout layout = record layout { size = padded layout.size }

-- Heap::new over an array that is not at address 0 and has at least min_size + 3 bytes below 2 ^
-- 31 makes a well-formed heap of that place and size, with nothing in use, whose free bytes are those from the first multiple of 4 to its end, none of them below its bottom;
-- used, free and alignment loss add up to the size.
pub new-HeapValid :
    (bottom size : ℕ)
    → 0 < bottom
    → bottom + size < 2 ^ 31
    → min_size + 3 ≤ size
    → (heap : Heap) × (new bottom size ≡ done heap)
      × HeapValid (round_up bottom 4 - bottom) heap
      × (heap.bottom ≡ bottom)
      × (heap.size ≡ size)
      × (heap.used ≡ 0)
      × ((x : ℕ) → round_up bottom 4 ≤ x → x < bottom + size → is_free x heap.holes.holes ≡ true)
      × ((x : ℕ) → is_free x heap.holes.holes ≡ true → bottom ≤ x)
unfolding new Hole.new
new-HeapValid bottom size p t l = (
  record {
    bottom = bottom;
    size = size;
    used = 0;
    holes = record { first = block 0 0; holes = block start (size - (start - bottom)) ∷ [] };
  },
  ground (arith, e, r.above, r.near),
  record {
    valid = record {
      small = t;
      dummy_size = refl;
      dummy_addr = refl;
      chain = omega (arith, r.above, r.near);
    };
    balance = omega (arith, r.above, r.near);
  },
  refl,
  refl,
  refl,
  λ x a b. ground (arith, r.above, r.near),
  λ x i. ground (arith, r.above, r.near),
)
  where
    start : ℕ
    start = round_up bottom 4

    r : RoundsUp bottom 4 (round_up bottom 4)
    r = round_up-RoundsUp bottom 4 (omega arith)

    e : align_up bottom align_of_hole ≡ done (round_up bottom 4)
    e = align_up_lem bottom 4 four_align (omega arith)

module _ (lost : ℕ) (heap : Heap) (layout : Layout) (v : HeapValid lost heap)
    (q : Requests heap layout) where
  abbrev pub HeapCase : Option ℕ → Heap → Type 0
  HeapCase none heap' = heap' ≡ heap
  HeapCase (some addr) heap' =
      (heap'.used ≡ heap.used + padded layout.size)
      × (heap'.bottom ≡ heap.bottom)
      × (heap'.size ≡ heap.size)
      × AfterAlloc (heap.bottom + heap.size) heap.holes (padded_layout layout) addr heap'.holes

  fits : Fits (heap.bottom + heap.size) (padded_layout layout)
  fits = record {
    align = q.align;
    long = omega (arith, padded-RoundsUp layout.size);
    room = omega (arith, padded-RoundsUp layout.size, q.room);
  }

  layout_lem : align_layout layout ≡ done (padded_layout layout)
  layout_lem = align_layout_lem layout q.align (omega (arith, q.room))

  counted :
      (r : Option ℕ) (holes : Hole.HoleList)
      → Hole.allocate_first_fit heap.holes (padded_layout layout) ≡ done (r, holes)
      → AllocCase (heap.bottom + heap.size) heap.holes (padded_layout layout) r holes
      → (r : Option ℕ) × (heap' : Heap) × (allocate_first_fit heap layout ≡ done (r, heap'))
        × HeapValid lost heap'
        × HeapCase r heap'
  unfolding allocate_first_fit
  counted none holes e c = (none, heap, ground (arith, layout_lem, e, c.0), v, refl)
  counted (some addr) holes e c = (
    some addr,
    record heap { used = heap.used + padded layout.size; holes = holes },
    ground (arith, layout_lem, e, count),
    record { valid = c.valid; balance = omega (arith, v.balance, c.total) },
    (refl, refl, refl, c),
  )
    where
      count : add_usize heap.used (padded layout.size) ≡ heap.used + padded layout.size
      count = omega (arith, v.balance, q.room, padded-RoundsUp layout.size)

  -- Allocation does not panic and keeps the balance; a refusal changes nothing.
  pub allocate_first_fit-HeapValid :
      (r : Option ℕ) × (heap' : Heap) × (allocate_first_fit heap layout ≡ done (r, heap'))
      × HeapValid lost heap'
      × HeapCase r heap'
  allocate_first_fit-HeapValid =
      let (r, holes, e, c) =
        allocate_first_fit-AllocCase (heap.bottom + heap.size) heap.holes (padded_layout layout)
          v.valid fits in
      counted r holes e c

  -- So does freeing a block in use.
  pub deallocate-HeapValid :
      (addr : ℕ)
      → 0 < addr
      → addr + padded layout.size ≤ heap.bottom + heap.size
      → padded layout.size ≤ heap.used
      → ((x : ℕ)
          → in_block x (block addr (padded layout.size)) ≡ true
          → is_free x heap.holes.holes ≡ false)
      → (heap' : Heap) × (deallocate heap addr layout ≡ done heap')
        × HeapValid lost heap'
        × (heap'.used ≡ heap.used - padded layout.size)
        × (heap'.bottom ≡ heap.bottom)
        × (heap'.size ≡ heap.size)
        × AfterFree (heap.bottom + heap.size) heap.holes addr (padded layout.size) heap'.holes
  unfolding deallocate
  deallocate-HeapValid addr p b u n =
      let (holes, e, f) =
        deallocate-AfterFree (heap.bottom + heap.size) heap.holes v.valid addr (padded layout.size)
          p (omega (arith, padded-RoundsUp layout.size)) b n in
      let count : sub_usize heap.used (padded layout.size) ≡ heap.used - padded layout.size =
        omega (arith, v.balance, q.room) in
      (
        record heap { used = heap.used - padded layout.size; holes = holes },
        ground (arith, layout_lem, e, count),
        record { valid = f.valid; balance = omega (arith, v.balance, f.total) },
        refl,
        refl,
        refl,
        f,
      )
