-- ===== src/Alloc/Hole/Bytes.antt =====
-- The list of holes against the set of its free bytes.
use native.Mathlib.Decide.{dec_le, dec_lt}
use drogue_device.Base.{
  ℕ, ◌+◌, ◌≤◌, ◌<◌, max, ◌≡◌, refl, sym, ◌⊎◌, inl, inr, true, false, List, [], ◌∷◌, arith,
}
use drogue_device.Alloc.Hole.{HoleInfo, block}
use drogue_device.Alloc.Hole.Valid.{in_block, is_free, Chain, Clear}

-- No byte of the block is free.
abbrev pub NoneFree : ℕ → ℕ → List HoleInfo → Type 0
NoneFree addr size hs = (x : ℕ) → in_block x (block addr size) ≡ true → is_free x hs ≡ false

pub NoneFree-Clear :
    (top low addr size : ℕ) (hs : List HoleInfo)
    → 0 < size
    → Chain top low hs
    → NoneFree addr size hs
    → Clear addr size hs
NoneFree-Clear top low addr size [] p c n = tt
NoneFree-Clear top low addr size (h ∷ hs) p c n =
    (apart, NoneFree-Clear top (h.addr + h.size) addr size hs p c.3 (λ x i. ground (arith, n x i)))
  where
    apart : (h.addr + h.size ≤ addr) ⊎ (addr + size ≤ h.addr)
    apart = elim (dec_le (h.addr + h.size) addr) [
      | yes l ↦ inl l
      | no l ↦ elim (dec_le (addr + size) h.addr) [
        | yes r ↦ inr r
        | no r ↦ absurd (ground (arith, n (max addr h.addr)))
      ]
    ]

-- A byte at or below the low end is not free.
pub is_free-low :
    (top low x : ℕ) (hs : List HoleInfo) → Chain top low hs → x ≤ low → is_free x hs ≡ false
is_free-low top low x [] c l = refl
is_free-low top low x (h ∷ hs) c l = ground (arith, is_free-low top (h.addr + h.size) x hs c.3)

abbrev SameBytes : List HoleInfo → List HoleInfo → Type 0
SameBytes hs hs' = (x : ℕ) → is_free x hs ≡ is_free x hs'

module _ (top : ℕ) where
  SameBytes-addr :
      (low low' : ℕ) (h h' : HoleInfo) (hs hs' : List HoleInfo)
      → Chain top low (h ∷ hs)
      → Chain top low' (h' ∷ hs')
      → SameBytes (h ∷ hs) (h' ∷ hs')
      → h'.addr ≤ h.addr
  SameBytes-addr low low' h h' hs hs' c c' e = elim (dec_lt h.addr h'.addr) [
    | yes l ↦ absurd (ground (arith, e h.addr, is_free-low top (h'.addr + h'.size) h.addr hs' c'.3))
    | no l ↦ omega arith
  ]

  SameBytes-end :
      (low low' : ℕ) (h h' : HoleInfo) (hs hs' : List HoleInfo)
      → Chain top low (h ∷ hs)
      → Chain top low' (h' ∷ hs')
      → SameBytes (h ∷ hs) (h' ∷ hs')
      → h.addr ≡ h'.addr
      → h'.size ≤ h.size
  SameBytes-end low low' h h' hs hs' c c' e a = elim (dec_lt h.size h'.size) [
    | yes l ↦ absurd (
        ground
          (arith, e (h.addr + h.size), is_free-low top (h.addr + h.size) (h.addr + h.size) hs c.3))
    | no l ↦ omega arith
  ]

  SameBytes-tail :
      (low low' : ℕ) (h h' : HoleInfo) (hs hs' : List HoleInfo)
      → Chain top low (h ∷ hs)
      → Chain top low' (h' ∷ hs')
      → SameBytes (h ∷ hs) (h' ∷ hs')
      → h.addr ≡ h'.addr
      → h.size ≡ h'.size
      → SameBytes hs hs'
  SameBytes-tail low low' h h' hs hs' c c' e a s x = ground (
    arith,
    e x,
    is_free-low top (h.addr + h.size) x hs c.3,
    is_free-low top (h'.addr + h'.size) x hs' c'.3,
  )

  -- A well-formed list is determined by its free bytes.
  pub Chain-ext :
      (low low' : ℕ) (hs hs' : List HoleInfo)
      → Chain top low hs
      → Chain top low' hs'
      → ((x : ℕ) → is_free x hs ≡ is_free x hs')
      → hs ≡ hs'
  Chain-ext low low' [] [] c c' e = refl
  Chain-ext low low' [] (h' ∷ hs') c c' e = absurd (ground (arith, e h'.addr))
  Chain-ext low low' (h ∷ hs) [] c c' e = absurd (ground (arith, e h.addr))
  Chain-ext low low' (h ∷ hs) (h' ∷ hs') c c' e = ground (
    arith,
    same_addr,
    same_size,
    Chain-ext (h.addr + h.size) (h'.addr + h'.size) hs hs' c.3 c'.3
        λ x. SameBytes-tail low low' h h' hs hs' c c' e same_addr same_size x,
  )
    where
      same_addr : h.addr ≡ h'.addr
      same_addr = omega (
        arith,
        SameBytes-addr low low' h h' hs hs' c c' e,
        SameBytes-addr low' low h' h hs' hs c' c (λ x. sym (e x)),
      )

      same_size : h.size ≡ h'.size
      same_size = omega (
        arith,
        SameBytes-end low low' h h' hs hs' c c' e same_addr,
        SameBytes-end low' low h' h hs' hs c' c (λ x. sym (e x)) (sym same_addr),
      )
