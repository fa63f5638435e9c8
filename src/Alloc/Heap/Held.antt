-- ===== src/Alloc/Heap/Held.antt =====
-- Blocks that are held: where they lie, and what freeing and taking leave of them.
use native.Mathlib.Decide.{dec_le}
use drogue_device.Base.{
  ℕ, zero, suc, ◌+◌, ◌^◌, ◌≤◌, ◌<◌, max, ◌≡◌, ◌⊎◌, inl, inr, true, false, List, [], ◌∷◌, some,
  arith, get_elem?,
}
use drogue_device.Alloc.Align.{IsAlign}
use drogue_device.Alloc.Layout.{Layout}
use drogue_device.Alloc.Hole.{HoleInfo, block}
use drogue_device.Alloc.Hole.Valid.{in_block, is_free}
use drogue_device.Alloc.Hole.Bytes.{NoneFree}
use drogue_device.Alloc.Heap.Balance.{padded, padded-RoundsUp}

-- A block that the client holds.
pub record Held : Type 0 where
  pub addr : ℕ
  pub layout : Layout

abbrev pub remove_at : ℕ → List Held → List Held
remove_at i [] = []
remove_at zero (l ∷ ls) = ls
remove_at (suc i) (l ∷ ls) = l ∷ remove_at i ls

abbrev pub size_of : Held → ℕ
size_of l = padded l.layout.size

abbrev pub held_size : List Held → ℕ
held_size [] = 0
held_size (l ∷ ls) = size_of l + held_size ls

-- Two blocks share no byte.
abbrev pub Disjoint : Held → Held → Type 0
Disjoint l m = (l.addr + size_of l ≤ m.addr) ⊎ (m.addr + size_of m ≤ l.addr)

abbrev pub DisjointAll : Held → List Held → Type 0
DisjointAll l [] = Unit {0}
DisjointAll l (m ∷ ms) = Disjoint l m × DisjointAll l ms

-- A block lies in the heap, and none of its bytes is free.
pub record Owns (bottom top : ℕ) (free : List HoleInfo) (l : Held) : Type 0 where
  pub positive : 0 < l.addr
  pub above : bottom ≤ l.addr
  pub below : l.addr + size_of l ≤ top
  pub align : IsAlign l.layout.align
  pub room : top + l.layout.align + l.layout.size + 32 < 2 ^ 32
  pub taken : NoneFree l.addr (size_of l) free

abbrev pub OwnsAll : ℕ → ℕ → List HoleInfo → List Held → Type 0
OwnsAll bottom top free [] = Unit {0}
OwnsAll bottom top free (l ∷ ls) =
    Owns bottom top free l × DisjointAll l ls × OwnsAll bottom top free ls

module _ (bottom top : ℕ) (free free' : List HoleInfo) where
  -- Taking bytes leaves every held block held.
  pub OwnsAll-take :
      ((x : ℕ) → is_free x free ≡ false → is_free x free' ≡ false)
      → (ls : List Held) → OwnsAll bottom top free ls
      → OwnsAll bottom top free' ls
  OwnsAll-take less [] o = tt
  OwnsAll-take less (l ∷ ls) o = (
    record {
      positive = o.0.positive;
      above = o.0.above;
      below = o.0.below;
      align = o.0.align;
      room = o.0.room;
      taken = λ x i. less x (o.0.taken x i);
    },
    o.1,
    OwnsAll-take less ls o.2,
  )

  -- So does freeing a block that is disjoint from all of them.
  pub OwnsAll-free :
      (l : Held)
      → ((x : ℕ)
          → in_block x (block l.addr (size_of l)) ≡ false
          → is_free x free ≡ false
          → is_free x free' ≡ false)
      → (ls : List Held) → DisjointAll l ls
      → OwnsAll bottom top free ls
      → OwnsAll bottom top free' ls
  OwnsAll-free l more [] d o = tt
  OwnsAll-free l more (m ∷ ms) d o = (
    record {
      positive = o.0.positive;
      above = o.0.above;
      below = o.0.below;
      align = o.0.align;
      room = o.0.room;
      taken = λ x i. more x (ground (arith, d.0)) (o.0.taken x i);
    },
    o.1,
    OwnsAll-free l more ms d.1 o.2,
  )

-- What was free meets no held block.
pub free-DisjointAll :
    (bottom top : ℕ) (free : List HoleInfo) (l : Held)
    → ((x : ℕ) → in_block x (block l.addr (size_of l)) ≡ true → is_free x free ≡ true)
    → (ls : List Held) → OwnsAll bottom top free ls
    → DisjointAll l ls
free-DisjointAll bottom top free l f [] o = tt
free-DisjointAll bottom top free l f (m ∷ ms) o =
    (apart, free-DisjointAll bottom top free l f ms o.2)
  where
    apart : Disjoint l m
    apart = elim (dec_le (l.addr + size_of l) m.addr) [
      | yes a ↦ inl a
      | no a ↦ elim (dec_le (m.addr + size_of m) l.addr) [
        | yes b ↦ inr b
        | no b ↦ absurd (
            ground (
              arith,
              f (max l.addr m.addr),
              o.0.taken (max l.addr m.addr),
              padded-RoundsUp l.layout.size,
              padded-RoundsUp m.layout.size,
            ))
      ]
    ]

DisjointAll-remove_at :
    (m : Held) (i : ℕ) (ls : List Held) → DisjointAll m ls → DisjointAll m (remove_at i ls)
DisjointAll-remove_at m i [] d = tt
DisjointAll-remove_at m zero (l ∷ ls) d = d.1
DisjointAll-remove_at m (suc i) (l ∷ ls) d = (d.0, DisjointAll-remove_at m i ls d.1)

DisjointAll-get :
    (m l : Held) (i : ℕ) (ls : List Held)
    → get_elem? ls i ≡ some l
    → DisjointAll m ls
    → Disjoint m l
DisjointAll-get m l i [] e d = cc
DisjointAll-get m l zero (k ∷ ls) e d = let same : k ≡ l = cc in rw same at (d.0)
DisjointAll-get m l (suc i) (k ∷ ls) e d = DisjointAll-get m l i ls e d.1

-- The held block at place `i`: what is known of it, and its share of the bytes in use.
pub Owns-get :
    (bottom top : ℕ) (free : List HoleInfo) (l : Held) (i : ℕ) (ls : List Held)
    → get_elem? ls i ≡ some l
    → OwnsAll bottom top free ls
    → Owns bottom top free l × (held_size (remove_at i ls) + size_of l ≡ held_size ls)
Owns-get bottom top free l i [] e o = cc
Owns-get bottom top free l zero (k ∷ ls) e o =
    let same : k ≡ l = cc in rw (← same) (o.0, omega arith)
Owns-get bottom top free l (suc i) (k ∷ ls) e o =
    let (own, total) = Owns-get bottom top free l i ls e o.2 in (own, omega (arith, total))

pub OwnsAll-remove_at :
    (bottom top : ℕ) (free free' : List HoleInfo) (l : Held)
    → ((x : ℕ)
        → in_block x (block l.addr (size_of l)) ≡ false
        → is_free x free ≡ false
        → is_free x free' ≡ false)
    → (i : ℕ) (ls : List Held) → get_elem? ls i ≡ some l
    → OwnsAll bottom top free ls
    → OwnsAll bottom top free' (remove_at i ls)
OwnsAll-remove_at bottom top free free' l more i [] e o = tt
OwnsAll-remove_at bottom top free free' l more zero (k ∷ ls) e o =
    let same : k ≡ l = cc in OwnsAll-free bottom top free free' l more ls (rw same at (o.1)) o.2
OwnsAll-remove_at bottom top free free' l more (suc i) (k ∷ ls) e o =
    let apart : Disjoint k l = DisjointAll-get k l i ls e o.1 in
    (
      record {
        positive = o.0.positive;
        above = o.0.above;
        below = o.0.below;
        align = o.0.align;
        room = o.0.room;
        taken = λ x n. more x (ground arith) (o.0.taken x n);
      },
      DisjointAll-remove_at k i ls o.1,
      OwnsAll-remove_at bottom top free free' l more i ls e o.2,
    )
