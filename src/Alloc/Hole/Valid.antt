-- ===== src/Alloc/Hole/Valid.antt =====
-- The holes that the list may hold, and the bytes that are free in them.
use drogue_device.Base.{
  ℕ, ◌+◌, ◌≤◌, ◌<◌, ◌⊎◌, inr, Bool, false, ◌&&◌, ◌||◌, ltb, leb, List, [], ◌∷◌, arith,
}
use drogue_device.Alloc.Hole.{HoleInfo, min_size}

-- The byte at `x` lies in the hole.
abbrev pub in_block : ℕ → HoleInfo → Bool
in_block x h = leb h.addr x && ltb x (h.addr + h.size)

-- The byte at `x` is free.
abbrev pub is_free : ℕ → List HoleInfo → Bool
is_free x [] = false
is_free x (h ∷ hs) = in_block x h || is_free x hs

abbrev pub free_size : List HoleInfo → ℕ
free_size [] = 0
free_size (h ∷ hs) = h.size + free_size hs

-- The holes are sorted, at least `min_size` long, within the heap's top, and no two touch: the first
-- begins above `low`.
abbrev pub Chain : ℕ → ℕ → List HoleInfo → Type 0
Chain top low [] = low ≤ top
Chain top low (h ∷ hs) =
    (low < h.addr) × (min_size ≤ h.size) × (h.addr + h.size ≤ top) × Chain top (h.addr + h.size) hs

-- A block meets no hole.
abbrev pub Clear : ℕ → ℕ → List HoleInfo → Type 0
Clear addr size [] = Unit {0}
Clear addr size (h ∷ hs) = ((h.addr + h.size ≤ addr) ⊎ (addr + size ≤ h.addr)) × Clear addr size hs

pub Chain-low :
    (top low low' : ℕ) (hs : List HoleInfo) → low' ≤ low → Chain top low hs → Chain top low' hs
Chain-low top low low' [] l c = omega arith
Chain-low top low low' (h ∷ hs) l c = (omega arith, c.1, c.2, c.3)

pub Chain-le_top : (top low : ℕ) (hs : List HoleInfo) → Chain top low hs → low ≤ top
Chain-le_top top low [] c = c
Chain-le_top top low (h ∷ hs) c = omega arith

pub Chain-Clear :
    (top low addr size : ℕ) (hs : List HoleInfo)
    → addr + size ≤ low
    → Chain top low hs
    → Clear addr size hs
Chain-Clear top low addr size [] l c = tt
Chain-Clear top low addr size (h ∷ hs) l c =
    (inr (omega arith), Chain-Clear top (h.addr + h.size) addr size hs (omega arith) c.3)
