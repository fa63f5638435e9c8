-- ===== src/Alloc/Hole/Fit.antt =====
-- `fn allocate_first_fit`: what it takes out of the list, and when it finds nothing.
use drogue_device.Base.{
  ℕ, ◌+◌, ◌*◌, ◌≤◌, ◌<◌, ◌≡◌, refl, ap, inl, inr, true, false, ◌||◌, List, [], ◌∷◌, Option, none,
  some, arith, done, Option-cases,
}
use drogue_device.Alloc.Layout.{Layout}
use drogue_device.Alloc.Hole.{
  HoleInfo, Allocation, Found, min_size, split_hole, split_at, first_fit,
}
use drogue_device.Alloc.Hole.Valid.{in_block, is_free, free_size, Chain, Chain-low}
use drogue_device.Alloc.Hole.Bytes.{is_free-low}
use drogue_device.Alloc.Hole.Split.{Fits, Splits, front_of_total, split_at_lem, split_at_room}

-- Too small for certain, whatever the addresses are.
abbrev pub AllSmall : Layout → List HoleInfo → Type 0
AllSmall layout [] = Unit {0}
AllSmall layout (h ∷ hs) = (h.size < layout.size + layout.align + 2 * min_size) × AllSmall layout hs

-- The hole `h` is gone from the list, and nothing else is.
pub record Taken (top low : ℕ) (h : HoleInfo) (hs rest : List HoleInfo) : Type 0 where
  pub above : low < h.addr
  pub within : h.addr + h.size ≤ top
  pub chain : Chain top low rest
  pub total : free_size rest + h.size ≡ free_size hs
  pub bytes : (x : ℕ) → is_free x hs ≡ (in_block x h || is_free x rest)
  pub apart : (x : ℕ) → in_block x h ≡ true → is_free x rest ≡ false

abbrev pub Takes : ℕ → ℕ → Layout → List HoleInfo → Found → Type 0
Takes top low layout hs none = AllSmall layout hs
Takes top low layout hs (some (a, rest)) =
    (h : HoleInfo) × Splits h layout a × Taken top low h hs rest

module _ (top : ℕ) (layout : Layout) (fits : Fits top layout) where
  abbrev SplitCase : HoleInfo → Option Allocation → Type 0
  SplitCase hole none = hole.size < layout.size + layout.align + 2 * min_size
  SplitCase hole (some a) = Splits hole layout a

  split_hole_total :
      (hole : HoleInfo)
      → hole.addr + hole.size ≤ top
      → (r : Option Allocation) × (split_hole hole layout ≡ done r) × SplitCase hole r
  unfolding split_hole
  split_hole_total hole inside =
      let (f, e, fronts) = front_of_total top hole layout fits inside in
      elim (Option-cases (split_at hole layout.size f)) [
        | inl small ↦ (
          none,
          rw e (ap done small),
          ground (arith, split_at_room top hole layout fits inside f fronts),
        )
        | inr (a, found) ↦ (
          some a,
          rw e (ap done found),
          split_at_lem top hole layout fits inside f a fronts found,
        )
      ]

  Taken-head :
      (low : ℕ) (h : HoleInfo) (hs : List HoleInfo)
      → Chain top low (h ∷ hs)
      → Taken top low h (h ∷ hs) hs
  Taken-head low h hs c = record {
    above = c.0;
    within = c.2;
    chain = Chain-low top (h.addr + h.size) low hs (omega arith) c.3;
    total = omega arith;
    bytes = λ x. refl;
    apart = λ x i. ground (arith, is_free-low top (h.addr + h.size) x hs c.3);
  }

  Taken-behind :
      (low : ℕ) (current h : HoleInfo) (hs rest : List HoleInfo)
      → Chain top low (current ∷ hs)
      → Taken top (current.addr + current.size) h hs rest
      → Taken top low h (current ∷ hs) (current ∷ rest)
  Taken-behind low current h hs rest c t = record {
    above = omega arith;
    within = t.within;
    chain = (c.0, c.1, c.2, t.chain);
    total = omega arith;
    bytes = λ x. ground (arith, t.bytes x);
    apart = λ x i. ground (arith, t.apart x);
  }

  abbrev Fitted : ℕ → List HoleInfo → Type 0
  Fitted low hs =
      (found : Found) × (first_fit hs layout ≡ done found) × Takes top low layout hs found

  Fitted-behind :
      (low : ℕ) (current : HoleInfo) (rest : List HoleInfo)
      → Chain top low (current ∷ rest)
      → split_hole current layout ≡ done none
      → current.size < layout.size + layout.align + 2 * min_size
      → Fitted (current.addr + current.size) rest
      → Fitted low (current ∷ rest)
  unfolding first_fit
  Fitted-behind low current rest c e small (none, e', all) = (none, rw (e, e'), (small, all))
  Fitted-behind low current rest c e small (some (a, left), e', (h, s, t)) =
      (some (a, current ∷ left), rw (e, e'), (h, s, Taken-behind low current h rest left c t))

  Fitted-cons :
      (low : ℕ) (current : HoleInfo) (rest : List HoleInfo)
      → Chain top low (current ∷ rest)
      → ((r : Option Allocation) × (split_hole current layout ≡ done r) × SplitCase current r)
      → Fitted (current.addr + current.size) rest
      → Fitted low (current ∷ rest)
  unfolding first_fit
  Fitted-cons low current rest c (none, e, small) f = Fitted-behind low current rest c e small f
  Fitted-cons low current rest c (some a, e, s) f =
      (some (a, rest), rw e, (current, s, Taken-head low current rest c))

  -- It never panics; the holes that it passes over stay as they are.
  pub first_fit_total :
      (low : ℕ) (hs : List HoleInfo)
      → Chain top low hs
      → (found : Found) × (first_fit hs layout ≡ done found) × Takes top low layout hs found
  unfolding first_fit
  first_fit_total low [] c = (none, refl, tt)
  first_fit_total low (current ∷ rest) c =
      Fitted-cons low current rest c (split_hole_total current c.2)
        (first_fit_total (current.addr + current.size) rest c.3)
