-- ===== src/Alloc/Objects/Headers.antt =====
-- The headers of blocks that are held, and the pointers behind them.
use drogue_device.Base.{
  ℕ, zero, suc, ◌+◌, ◌^◌, ◌<◌, ◌≡◌, refl, ap, List, [], ◌∷◌, Option, none, some, arith, get_elem?,
  add_usize, sub_usize,
}
use drogue_device.Alloc.Align.{IsAlign, IsAlign-is_power_of_two, IsAlign-pos}
use drogue_device.Alloc.Layout.{Layout, from_size_align}
use drogue_device.Alloc.Heap.Balance.{padded-RoundsUp}
use drogue_device.Alloc.Heap.Held.{Held, remove_at, DisjointAll}
use drogue_device.Alloc.Objects.{write_header}

abbrev pub forget : ℕ → List ℕ → List ℕ
forget i [] = []
forget zero (p ∷ ps) = ps
forget (suc i) (p ∷ ps) = p ∷ forget i ps

abbrev pub pointers : List Held → List ℕ
pointers [] = []
pointers (l ∷ ls) = add_usize l.addr 8 ∷ pointers ls

abbrev pub HeadersOf : (ℕ → Option Layout) → List Held → Type 0
HeadersOf headers [] = Unit {0}
HeadersOf headers (l ∷ ls) = (headers l.addr ≡ some l.layout) × HeadersOf headers ls

pub header_of : (addr : ℕ) → addr < 2 ^ 32 → sub_usize (add_usize addr 8) 8 ≡ addr
header_of addr h = omega arith

pub get-pointers :
    (i : ℕ) (ls : List Held) (l : Held)
    → get_elem? ls i ≡ some l
    → get_elem? (pointers ls) i ≡ some (add_usize l.addr 8)
get-pointers i [] l e = cc
get-pointers zero (k ∷ ls) l e = let same : k ≡ l = cc in rw same refl
get-pointers (suc i) (k ∷ ls) l e = get-pointers i ls l e

pub get-none : (i : ℕ) (ls : List Held) → get_elem? ls i ≡ none → get_elem? (pointers ls) i ≡ none
get-none i [] e = refl
get-none zero (k ∷ ls) e = cc
get-none (suc i) (k ∷ ls) e = get-none i ls e

pub forget-pointers : (i : ℕ) (ls : List Held) → forget i (pointers ls) ≡ pointers (remove_at i ls)
forget-pointers i [] = refl
forget-pointers zero (l ∷ ls) = refl
forget-pointers (suc i) (l ∷ ls) = ap (λ ps. add_usize l.addr 8 ∷ ps) (forget-pointers i ls)

pub get-HeadersOf :
    (headers : ℕ → Option Layout) (i : ℕ) (ls : List Held) (l : Held)
    → get_elem? ls i ≡ some l
    → HeadersOf headers ls
    → headers l.addr ≡ some l.layout
get-HeadersOf headers i [] l e h = cc
get-HeadersOf headers zero (k ∷ ls) l e h = let same : k ≡ l = cc in rw (← same) (h.0)
get-HeadersOf headers (suc i) (k ∷ ls) l e h = get-HeadersOf headers i ls l e h.1

pub remove_at-HeadersOf :
    (headers : ℕ → Option Layout) (i : ℕ) (ls : List Held)
    → HeadersOf headers ls
    → HeadersOf headers (remove_at i ls)
remove_at-HeadersOf headers i [] h = tt
remove_at-HeadersOf headers zero (l ∷ ls) h = h.1
remove_at-HeadersOf headers (suc i) (l ∷ ls) h = (h.0, remove_at-HeadersOf headers i ls h.1)

-- A header for a new block is at the address of no other.
pub write_header-HeadersOf :
    (headers : ℕ → Option Layout) (m : Held) (layout : Layout) (ls : List Held)
    → DisjointAll m ls
    → HeadersOf headers ls
    → HeadersOf (write_header m.addr layout headers) ls
write_header-HeadersOf headers m layout [] d h = tt
write_header-HeadersOf headers m layout (l ∷ ls) d h = (
  ground (arith, d.0, h.0, padded-RoundsUp m.layout.size, padded-RoundsUp l.layout.size),
  write_header-HeadersOf headers m layout ls d.1 h.1,
)

pub from_size_align_lem :
    (layout : Layout)
    → IsAlign layout.align
    → layout.size + layout.align < 2 ^ 32
    → from_size_align layout.size layout.align ≡ some layout
unfolding from_size_align
from_size_align_lem layout a h = ground (arith, IsAlign-is_power_of_two a, IsAlign-pos a)
