-- ===== src/Alloc/Rc.antt =====
-- src/alloc/mod.rs: `Rc`, a shared box whose `u8` count goes up with each clone and down with each
-- drop. The model keeps one box, with whether its memory was given back to the heap.
use drogue_device.Base.{
  ℕ, zero, suc, ◌+◌, ◌-◌, ◌%◌, ◌<◌, ◌≡◌, refl, ◌∙◌, Bool, true, false, ◌==◌, if◌then◌else◌, arith,
}

pub record RcBox : Type 0 where
  pub count : ℕ
  pub freed : Bool

-- The memory of a box that was given back is not to be touched: `none`.
pub data Access : Type 0 where
  live : RcBox → Access
  dangling : Access

unfoldable pub new : RcBox
new = record { count = 0; freed = false }

access : RcBox → (RcBox → RcBox) → Access
access b f = if b.freed then dangling else live (f b)

-- `count += 1` and `count -= 1` on `u8` wrap.
unfoldable pub clone : RcBox → Access
unfolding access
clone b = access b (λ r. record r { count = (r.count + 1) % 256 })

unfoldable pub drop : RcBox → Access
unfolding access
drop b =
    access b (λ r. let less = (r.count + 255) % 256 in record { count = less; freed = less == 0 })

abbrev then_access : Access → (RcBox → Access) → Access
then_access (live b) f = f b
then_access dangling f = dangling

unfoldable pub clones : ℕ → RcBox → Access
clones zero b = live b
clones (suc n) b = then_access (clone b) (clones n)

unfoldable pub drops : ℕ → RcBox → Access
drops zero b = live b
drops (suc n) b = then_access (drop b) (drops n)

clones-live :
    (n k : ℕ)
    → k + n < 256
    → clones n (record { count = k; freed = false })
      ≡ live (record { count = k + n; freed = false })
unfolding clones clone
clones-live zero k h = ground arith
clones-live (suc n) k h = ground (arith, clones-live n ((k + 1) % 256))

drops-live :
    (n k : ℕ)
    → n < k
    → k < 256
    → drops n (record { count = k; freed = false }) ≡ live (record { count = k - n; freed = false })
unfolding drops drop
drops-live zero k h l = ground arith
drops-live (suc n) k h l = ground (arith, drops-live n ((k + 255) % 256))

drops-freed :
    (n : ℕ)
    → n < 255
    → drops (suc n) (record { count = suc n; freed = false })
      ≡ live (record { count = 0; freed = true })
unfolding drops drop
drops-freed zero l = refl
drops-freed (suc n) l = ground (arith, drops-freed n)

drops-dangling :
    (n : ℕ) → n < 255 → drops (suc (suc n)) (record { count = suc n; freed = false }) ≡ dangling
unfolding drops drop
drops-dangling zero l = refl
drops-dangling (suc n) l = ground (arith, drops-dangling n)

-- `n` clones make `n + 1` handles of one box; what follows runs on it.
abbrev pub after_clones : ℕ → (RcBox → Access) → Access
after_clones n f = then_access (clones n new) f

after_clones_lem :
    (n : ℕ) (f : RcBox → Access)
    → n < 256
    → after_clones n f ≡ f (record { count = n; freed = false })
unfolding new
after_clones_lem n f h = ground (arith, clones-live n 0)

-- With n + 1 handles, the box is in use until fewer than n have been dropped.
pub drops-clones :
    (n k : ℕ)
    → k < n
    → n < 256
    → after_clones n (drops k) ≡ live (record { count = n - k; freed = false })
drops-clones n k h l = after_clones_lem n (drops k) l ∙ drops-live k n h l

-- With n + 2 handles of one Rc (n + 1 clones, n < 255), dropping n + 1 of them gives the memory
-- back while one handle is left, and the last drop touches memory that was given back.
pub drops-clones_early :
    (n : ℕ)
    → n < 255
    → (after_clones (suc n) (drops (suc n)) ≡ live (record { count = 0; freed = true }))
      × (after_clones (suc n) (drops (suc (suc n))) ≡ dangling)
drops-clones_early n l = (
  after_clones_lem (suc n) (drops (suc n)) (omega arith) ∙ drops-freed n l,
  after_clones_lem (suc n) (drops (suc (suc n))) (omega arith) ∙ drops-dangling n l,
)
