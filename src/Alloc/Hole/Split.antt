-- ===== src/Alloc/Hole/Split.antt =====
-- `split_hole`: the block and its two paddings tile the hole.
use native.Mathlib.Decide.{ℕ_discrete}
use drogue_device.Base.{
  ℕ, ◌+◌, ◌-◌, ◌*◌, ◌%◌, ◌^◌, ◌≤◌, ◌<◌, ◌≡◌, ◌≢◌, refl, Option, none, some, arith, done, add_usize,
  sub_usize,
}
use drogue_device.Alloc.Align.{
  IsAlign, IsAlign-pos, align_up, align_up_lem, round_up, RoundsUp, round_up-RoundsUp,
}
use drogue_device.Alloc.Layout.{Layout}
use drogue_device.Alloc.Hole.{HoleInfo, Allocation, min_size, split_at, front_of, block}

-- What is asked for can be looked for below `top` with no address that wraps.
pub record Fits (top : ℕ) (layout : Layout) : Type 0 where
  pub align : IsAlign layout.align
  pub long : min_size ≤ layout.size
  pub room : top + min_size + layout.align + layout.size < 2 ^ 32

-- The padding is what lies between the two addresses.
abbrev pub Pads : Option HoleInfo → ℕ → ℕ → Type 0
Pads none lo hi = lo ≡ hi
Pads (some p) lo hi = (p.addr ≡ lo) × (p.addr + p.size ≡ hi) × (min_size ≤ p.size)

pub record Splits (hole : HoleInfo) (layout : Layout) (a : Allocation) : Type 0 where
  pub same_size : a.info.size ≡ layout.size
  pub aligned : a.info.addr % layout.align ≡ 0
  pub front : Pads a.front_padding hole.addr a.info.addr
  pub back : Pads a.back_padding (a.info.addr + a.info.size) (hole.addr + hole.size)

-- The first address that will do, and what lies in front of it.
pub record Fronts (hole : HoleInfo) (align : ℕ) (front : ℕ × Option HoleInfo) : Type 0 where
  pub aligned : front.0 % align ≡ 0
  pub pads : Pads front.1 hole.addr front.0
  pub near : front.0 < hole.addr + min_size + align

module _ (top : ℕ) (hole : HoleInfo) (layout : Layout) (fits : Fits top layout)
    (inside : hole.addr + hole.size ≤ top) where
  here : RoundsUp hole.addr layout.align (round_up hole.addr layout.align)
  here = round_up-RoundsUp hole.addr layout.align (IsAlign-pos fits.align)

  there :
      RoundsUp (hole.addr + min_size) layout.align (round_up (hole.addr + min_size) layout.align)
  there = round_up-RoundsUp (hole.addr + min_size) layout.align (IsAlign-pos fits.align)

  pub front_of_total :
      (f : ℕ × Option HoleInfo) × (front_of hole layout.align ≡ done f) × Fronts hole layout.align f
  unfolding front_of
  front_of_total = elim (ℕ_discrete hole.addr first) [
    | yes e ↦ (
      (hole.addr, none),
      ground (arith, first_lem),
      record {
        aligned = ground (arith, here.multiple);
        pads = refl;
        near = omega (arith, IsAlign-pos fits.align);
      },
    )
    | no e ↦ (
      (second, some (block hole.addr (sub_usize second hole.addr))),
      ground (arith, first_lem, second_lem),
      record {
        aligned = there.multiple;
        pads =
            (refl, omega (arith, there.above, there.near), omega (arith, there.above, there.near));
        near = there.near;
      },
    )
  ]
    where
      first : ℕ
      first = round_up hole.addr layout.align

      second : ℕ
      second = round_up (hole.addr + min_size) layout.align

      first_lem : align_up hole.addr layout.align ≡ done first
      first_lem = align_up_lem hole.addr layout.align fits.align (omega arith)

      second_lem : align_up (add_usize hole.addr min_size) layout.align ≡ done second
      second_lem =
          let e : add_usize hole.addr min_size ≡ hole.addr + min_size = omega arith in
          rw e (align_up_lem (hole.addr + min_size) layout.align fits.align (omega arith))

  -- With the address and its padding, the test of the size decides.
  pub split_at_lem :
      (f : ℕ × Option HoleInfo) (a : Allocation)
      → Fronts hole layout.align f
      → split_at hole layout.size f ≡ some a
      → Splits hole layout a
  unfolding split_at
  split_at_lem (addr, none) a h e = ground arith
  split_at_lem (addr, some p) a h e = ground arith

  -- A hole with room to spare for both paddings is big enough.
  pub split_at_room :
      (f : ℕ × Option HoleInfo)
      → Fronts hole layout.align f
      → layout.size + layout.align + 2 * min_size ≤ hole.size
      → split_at hole layout.size f ≢ none
  unfolding split_at
  split_at_room (addr, none) h e = ground arith
  split_at_room (addr, some p) h e = ground arith

-- For an aligned hole and a required size that exceeds the hole, is at most the hole size + 2 ^ 32
-- - min_size and makes address + size wrap past 2 ^ 32, the size test of split_hole passes with
-- wrapping arithmetic and an allocation of that size is returned.
pub split_at_wraps :
    (hole : HoleInfo) (size : ℕ)
    → hole.addr + hole.size < 2 ^ 32
    → size < 2 ^ 32
    → 2 ^ 32 ≤ hole.addr + size
    → hole.size < size
    → size + min_size ≤ hole.size + 2 ^ 32
    → (a : Allocation) × (split_at hole size (hole.addr, none) ≡ some a) × (a.info.size ≡ size)
unfolding split_at
split_at_wraps hole size t s w big room = (
  record {
    info = block hole.addr size;
    front_padding = none;
    back_padding =
        some (block ((hole.addr + size) % 2 ^ 32) ((hole.size + 2 ^ 32 - size) % 2 ^ 32));
  },
  ground arith,
  refl,
)
