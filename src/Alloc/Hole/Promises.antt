-- ===== src/Alloc/Hole/Promises.antt =====
-- `HoleList`: allocation, its round trip with deallocation, and the check against a double free.
use native.Mathlib.Decide.{dec_lt}
use drogue_device.Base.{
  ℕ, ◌+◌, ◌^◌, ◌≤◌, ◌<◌, ◌≡◌, refl, sym, ap, ◌∙◌, inl, inr, true, List, [], ◌∷◌, Option, none, some,
  arith, done, panic,
}
use drogue_device.Alloc.Layout.{Layout}
use drogue_device.Alloc.Hole.{
  HoleInfo, HoleList, Found, min_size, first_fit, free_block, deallocate, finish_allocation,
  allocate_first_fit,
}
use drogue_device.Alloc.Hole.Valid.{is_free, Chain, Chain-low}
use drogue_device.Alloc.Hole.Steps.{IsHole, hole_end_lem, free_block-delegate}
use drogue_device.Alloc.Hole.Bytes.{Chain-ext, is_free-low}
use drogue_device.Alloc.Hole.Split.{Fits}
use drogue_device.Alloc.Hole.Fit.{AllSmall, Takes, first_fit_total}
use drogue_device.Alloc.Hole.Contract.{
  Valid, AfterAlloc, deallocate-AfterFree, finish_allocation-AfterAlloc,
}

-- A refusal leaves the list alone, and says that every hole is too small.
abbrev pub AllocCase : ℕ → HoleList → Layout → Option ℕ → HoleList → Type 0
AllocCase top list layout none list' = (list' ≡ list) × AllSmall layout list.holes
AllocCase top list layout (some addr) list' = AfterAlloc top list layout addr list'

module _ (top : ℕ) (list : HoleList) (layout : Layout) (v : Valid top list)
    (fits : Fits top layout) where
  abbrev Allocates : Type 0
  Allocates =
      (r : Option ℕ) × (list' : HoleList) × (allocate_first_fit list layout ≡ done (r, list'))
      × AllocCase top list layout r list'

  allocates :
      (found : Found)
      → first_fit list.holes layout ≡ done found
      → Takes top 0 layout list.holes found
      → Allocates
  unfolding allocate_first_fit finish_allocation
  allocates none e small = (none, list, ground (arith, e, fits.long), (refl, small))
  allocates (some (a, rest)) e (h, s, t) =
      let (list', e', after) = finish_allocation-AfterAlloc top list layout v fits h a rest s t in
      (some a.info.addr, list', ground (arith, e, e', fits.long), after)

  -- On a well-formed hole list, for a request that does not wrap, HoleList::allocate_first_fit
  -- does not panic. Either it returns the address of an aligned block all of whose bytes were
  -- free, takes exactly those bytes out of the free set and keeps the list well formed; or it
  -- returns an error, changes nothing, and every hole is smaller than size + align + 2 * min_size.
  pub allocate_first_fit-AllocCase :
      (r : Option ℕ) × (list' : HoleList) × (allocate_first_fit list layout ≡ done (r, list'))
      × AllocCase top list layout r list'
  allocate_first_fit-AllocCase =
      let (found, e, t) = first_fit_total top layout fits 0 list.holes v.chain in
      allocates found e t

  HoleList-ext :
      (list' : HoleList)
      → Valid top list'
      → ((x : ℕ) → is_free x list'.holes ≡ is_free x list.holes)
      → list' ≡ list
  HoleList-ext list' w same = ground (
    arith,
    v.dummy_size,
    v.dummy_addr,
    w.dummy_size,
    w.dummy_addr,
    Chain-ext top 0 0 list'.holes list.holes w.chain v.chain same,
  )

  -- On a well-formed hole list, freeing the block that allocate_first_fit has just returned gives
  -- back the very same list of holes.
  pub deallocate-allocate_first_fit :
      (addr : ℕ) (list' : HoleList)
      → allocate_first_fit list layout ≡ done (some addr, list')
      → deallocate list' addr layout.size ≡ done list
  deallocate-allocate_first_fit addr list' e =
      let (r, l, e', c) = allocate_first_fit-AllocCase in undo r l c (done_inj _ _ (sym e' ∙ e))
    where
      done_inj : (p q : Option ℕ × HoleList) → done p ≡ done q → p ≡ q
      done_inj p q h = cc

      undo :
          (r : Option ℕ) (l : HoleList)
          → AllocCase top list layout r l
          → ◌≡◌ {A = Option ℕ × HoleList} (r, l) (some addr, list')
          → deallocate list' addr layout.size ≡ done list
      undo none l c h = cc
      undo (some a) l c h =
          let same_addr : a ≡ addr = cc in
          let same_list : l ≡ list' = cc in
          let (back, e₂, f) =
            deallocate-AfterFree top l c.valid a layout.size c.positive fits.long c.below
              (λ x i. ground (arith, c.bytes x)) in
          rw (← same_addr, ← same_list, e₂)
            (ap done
              (HoleList-ext back f.valid λ x. ground (arith, f.bytes x, c.bytes x, c.was_free x)))

-- A block that begins inside `hole` trips the assertion.
free_block-inside :
    (hole : HoleInfo) (hs : List HoleInfo) (addr size : ℕ)
    → IsHole hole
    → hole.addr + hole.size < 2 ^ 32
    → addr < hole.addr + hole.size
    → free_block hole hs addr size ≡ panic
unfolding free_block
free_block-inside hole [] addr size k t l = ground (arith, hole_end_lem hole k t)
free_block-inside hole (next ∷ rest) addr size k t l = ground (arith, hole_end_lem hole k t)

free_block-double :
    (top : ℕ) (hole : HoleInfo) (hs : List HoleInfo) (addr size : ℕ)
    → IsHole hole
    → Chain top (hole.addr + hole.size) hs
    → hole.addr + hole.size ≤ addr
    → top + size + top < 2 ^ 32
    → addr ≤ top
    → min_size ≤ size
    → is_free addr hs ≡ true
    → free_block hole hs addr size ≡ panic
free_block-double top hole [] addr size k c b t a l f = cc
free_block-double top hole (next ∷ rest) addr size k c b t a l f =
    rw
      (free_block-delegate hole next rest addr size k l b (omega arith) (omega (arith, behind))
        (omega (arith, behind)) behind)
      (elim (dec_lt addr (next.addr + next.size)) [
        | yes i ↦ rw (free_block-inside next rest addr size (inr c.1) (omega arith) i)
        | no o ↦ rw (
            free_block-double top next rest addr size (inr c.1) c.3 (omega arith) t a l
              (ground arith))
      ])
  where
    behind : next.addr ≤ addr
    behind = ground (arith, is_free-low top (next.addr + next.size) addr rest c.3)

-- On a well-formed hole list, freeing at an address whose byte is free already panics, whatever
-- the size (of at least min_size, within the address space).
pub deallocate-double :
    (top : ℕ) (list : HoleList) (addr size : ℕ)
    → Valid top list
    → addr ≤ top
    → top + size + top < 2 ^ 32
    → min_size ≤ size
    → is_free addr list.holes ≡ true
    → deallocate list addr size ≡ panic
unfolding deallocate
deallocate-double top list addr size v a t l f = rw (
    free_block-double top list.first list.holes addr size (inl (v.dummy_size, v.dummy_addr))
      (Chain-low top 0 (list.first.addr + list.first.size) list.holes
        (omega (arith, v.dummy_size, v.dummy_addr)) v.chain)
      (omega (arith, v.dummy_size, v.dummy_addr)) t a l f)
