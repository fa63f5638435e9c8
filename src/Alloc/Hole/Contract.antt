-- ===== src/Alloc/Hole/Contract.antt =====
-- `HoleList`: what its two operations promise, in terms of the set of free bytes.
use drogue_device.Base.{
  ℕ, ◌+◌, ◌-◌, ◌%◌, ◌^◌, ◌≤◌, ◌<◌, ◌≡◌, refl, ◌∙◌, inl, Bool, true, false, ◌||◌, ◌&&◌, not, List,
  Option, none, some, arith, Outcome, done, panic,
}
use drogue_device.Alloc.Layout.{Layout}
use drogue_device.Alloc.Hole.{
  HoleInfo, HoleList, Allocation, block, min_size, free_block, deallocate, deallocate_padding,
  finish_allocation,
}
use drogue_device.Alloc.Hole.Valid.{in_block, is_free, free_size, Chain, Chain-low}
use drogue_device.Alloc.Hole.Dealloc.{Freed, Returns, free_block-Freed}
use drogue_device.Alloc.Hole.Bytes.{NoneFree, NoneFree-Clear}
use drogue_device.Alloc.Hole.Split.{Fits, Splits, Pads}
use drogue_device.Alloc.Hole.Fit.{Taken}

pub record Valid (top : ℕ) (list : HoleList) : Type 0 where
  pub small : top < 2 ^ 31
  pub dummy_size : list.first.size ≡ 0
  pub dummy_addr : list.first.addr ≡ 0
  pub chain : Chain top 0 list.holes

-- The list with the block made free.
pub record AfterFree (top : ℕ) (list : HoleList) (addr size : ℕ) (list' : HoleList) : Type 0 where
  pub valid : Valid top list'
  pub bytes :
      (x : ℕ) → is_free x list'.holes ≡ (in_block x (block addr size) || is_free x list.holes)
  pub total : free_size list'.holes ≡ free_size list.holes + size

-- The list with the block at `addr` taken.
pub record AfterAlloc (top : ℕ) (list : HoleList) (layout : Layout) (addr : ℕ) (list' : HoleList)
    : Type 0 where
  pub valid : Valid top list'
  pub positive : 0 < addr
  pub below : addr + layout.size ≤ top
  pub aligned : addr % layout.align ≡ 0
  pub was_free : (x : ℕ) → in_block x (block addr layout.size) ≡ true → is_free x list.holes ≡ true
  pub bytes :
      (x : ℕ)
      → is_free x list'.holes ≡ (is_free x list.holes && not (in_block x (block addr layout.size)))
  pub total : free_size list'.holes + layout.size ≡ free_size list.holes

module _ (top : ℕ) (list : HoleList) (v : Valid top list) where
  freed :
      (addr size : ℕ)
      → 0 < addr
      → (r : Outcome (HoleInfo × List HoleInfo)) → free_block list.first list.holes addr size ≡ r
      → ((x : ℕ) → Returns r (Freed x top list.first list.holes addr size))
      → (list' : HoleList) × (deallocate list addr size ≡ done list')
        × AfterFree top list addr size list'
  unfolding deallocate
  freed addr size p (done (first, holes)) e f = (
    record { first = first; holes = holes },
    rw e,
    record {
      valid = record {
        small = v.small;
        dummy_size = omega (arith, v.dummy_size, v.dummy_addr, (f 0).kept);
        dummy_addr = omega (arith, v.dummy_addr, (f 0).same_addr);
        chain = Chain-low top (first.addr + first.size) 0 holes (omega arith) (f 0).behind;
      };
      bytes = λ x. ground (arith, (f x).bytes, v.dummy_size, (f 0).kept);
      total = ground (arith, (f 0).total, v.dummy_size, (f 0).kept);
    },
  )
  freed addr size p panic e f = absurd (f 0)

  -- On a well-formed hole list, freeing a block of at least min_size bytes within the heap, none
  -- of which is free, does not panic, adds exactly those bytes to the free set, keeps the list
  -- sorted with no two holes touching, and adds its size to the total of the free sizes.
  pub deallocate-AfterFree :
      (addr size : ℕ)
      → 0 < addr
      → min_size ≤ size
      → addr + size ≤ top
      → NoneFree addr size list.holes
      → (list' : HoleList) × (deallocate list addr size ≡ done list')
        × AfterFree top list addr size list'
  deallocate-AfterFree addr size p l b n = freed addr size p _ refl λ x.
      free_block-Freed x top list.first list.holes addr size (record {
        small = v.small;
        kind = inl (v.dummy_size, v.dummy_addr, p);
        behind =
            Chain-low top 0 (list.first.addr + list.first.size) list.holes
              (omega (arith, v.dummy_size, v.dummy_addr)) v.chain;
        above = omega (arith, v.dummy_size, v.dummy_addr);
        long = l;
        below = b;
        clear = NoneFree-Clear top 0 addr size list.holes (omega arith) v.chain n;
      })

-- The padding is freed as one block, if there is any.
deallocate_padding-AfterFree :
    (top : ℕ) (list : HoleList) (p : Option HoleInfo) (lo hi : ℕ)
    → Valid top list
    → 0 < lo
    → hi ≤ top
    → Pads p lo hi
    → NoneFree lo (hi - lo) list.holes
    → (list' : HoleList) × (deallocate_padding list p ≡ done list')
      × AfterFree top list lo (hi - lo) list'
unfolding deallocate_padding
deallocate_padding-AfterFree top list none lo hi v l h p n =
    (list, refl, record { valid = v; bytes = λ x. ground arith; total = omega arith })
deallocate_padding-AfterFree top list (some b) lo hi v l h p n =
    let at : b.addr ≡ lo = p.0 in
    let long : b.size ≡ hi - lo = omega arith in
    rw (at, long) (deallocate-AfterFree top list v lo (hi - lo) l (omega arith) (omega arith) n)

-- The free bytes once the hole is taken and its paddings are back.
remaining :
    (front mid back all rest one two : Bool)
    → {hole : Bool} → hole ≡ (front || (mid || back))
    → (mid ≡ true → (front ≡ false) × (back ≡ false))
    → all ≡ (hole || rest)
    → (hole ≡ true → rest ≡ false)
    → one ≡ (front || rest)
    → two ≡ (back || one)
    → two ≡ (all && not mid)
remaining front true back all rest one two e d t a f₁ f₂ = ground (arith, a (e ∙ ground arith))
remaining front false back all rest one two e d t a f₁ f₂ = ground arith

module _ (top : ℕ) (list : HoleList) (layout : Layout) (v : Valid top list) (fits : Fits top layout)
    (h : HoleInfo) (a : Allocation) (rest : List HoleInfo) (s : Splits h layout a)
    (t : Taken top 0 h list.holes rest) where
  abbrev addr : ℕ
  addr = a.info.addr

  abbrev end : ℕ
  end = addr + layout.size

  Pads-le : (p : Option HoleInfo) (lo hi : ℕ) → Pads p lo hi → lo ≤ hi
  Pads-le none lo hi p = omega arith
  Pads-le (some b) lo hi p = omega arith

  inside : (h.addr ≤ addr) × (end ≤ h.addr + h.size)
  inside = omega (
    arith,
    s.same_size,
    Pads-le a.front_padding h.addr addr s.front,
    Pads-le a.back_padding (addr + a.info.size) (h.addr + h.size) s.back,
  )

  abbrev front_bytes : ℕ → Bool
  front_bytes x = in_block x (block h.addr (addr - h.addr))

  abbrev back_bytes : ℕ → Bool
  back_bytes x = in_block x (block end (h.addr + h.size - end))

  tile_hole :
      (x : ℕ)
      → in_block x h ≡ (front_bytes x || (in_block x (block addr layout.size) || back_bytes x))
  tile_hole x = ground (arith, inside)

  tile_apart :
      (x : ℕ)
      → in_block x (block addr layout.size) ≡ true
      → (front_bytes x ≡ false) × (back_bytes x ≡ false)
  tile_apart x i = ground (arith, inside)

  taken : HoleList
  taken = record list { holes = rest }

  -- Both paddings come back; what stays away is the block.
  pub finish_allocation-AfterAlloc :
      (list' : HoleList) × (finish_allocation list (some (a, rest)) ≡ done (some addr, list'))
      × AfterAlloc top list layout addr list'
  unfolding finish_allocation taken
  finish_allocation-AfterAlloc =
      let (one, e₁, f₁) =
        deallocate_padding-AfterFree top taken a.front_padding h.addr addr
          (record {
            small = v.small;
            dummy_size = v.dummy_size;
            dummy_addr = v.dummy_addr;
            chain = t.chain;
          })
          t.above (omega (arith, inside, t.within)) s.front
          (λ x i. t.apart x (ground (arith, inside))) in
      let (two, e₂, f₂) =
        deallocate_padding-AfterFree top one a.back_padding end (h.addr + h.size) f₁.valid
          (omega (arith, inside, t.above)) t.within (ground (arith, s.back, s.same_size))
          (λ x i. ground (arith, inside, f₁.bytes x, t.apart x)) in
      (
        two,
        ground (arith, e₁, e₂, inside, t.above),
        record {
          valid = f₂.valid;
          positive = omega (arith, inside, t.above);
          below = omega (arith, inside, t.within);
          aligned = s.aligned;
          was_free = λ x i. ground (arith, inside, t.bytes x);
          bytes = λ x.
              remaining _ _ _ _ _ _ _ (tile_hole x) (tile_apart x) (t.bytes x) (t.apart x)
                (f₁.bytes x) (f₂.bytes x);
          total = omega (arith, inside, t.total, f₁.total, f₂.total);
        },
      )
