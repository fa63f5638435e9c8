-- ===== src/Base/Bits/At.antt =====
-- The bits of a number one by one.
use Prim.Native.Nat.{
  ℕ, zero, suc, ◌+◌, ◌-◌, ◌*◌, ◌/◌, ◌%◌, ◌^◌, ◌≤◌, ◌<◌, min, max, bit_and, bit_or, bit_or-bitwise,
}
use mathlib.Core.Path.{◌≡◌, refl, sym, ap, ◌∙◌}
use native.Mathlib.Nat.{div-eq_of_lt, pow-suc}
use native.Mathlib.Omega.{arith}
use drogue_device.Base.Tests.{◌==◌, if◌then◌else◌}
use drogue_device.Base.Bits.{half_fuel, bit_and-halves, bit_and-high_ones, pow_pos, div-pow}

pub bit_or-halves : (a b : ℕ) → bit_or a b ≡ 2 * bit_or (a / 2) (b / 2) + max (a % 2) (b % 2)
bit_or-halves a b = by_digits a
  where
    by_digits : (k : ℕ) → bit_or k b ≡ 2 * bit_or (k / 2) (b / 2) + max (k % 2) (b % 2)
    by_digits (suc k) = omega (
      arith,
      half_fuel (λ y. y) max k (b / 2),
      bit_or-bitwise (suc k / 2) (b / 2),
      bit_or-bitwise (suc k) b,
    )
    by_digits zero = omega (arith, bit_or-bitwise (0 / 2) (b / 2), bit_or-bitwise 0 b)

-- Bit `k`, counted from the lowest.
abbrev pub bit_at : ℕ → ℕ → ℕ
bit_at zero a = a % 2
bit_at (suc k) a = bit_at k (a / 2)

pub bit_at-div : (k a : ℕ) → bit_at k a ≡ a / 2 ^ k % 2
bit_at-div zero a = omega arith
bit_at-div (suc k) a = omega (arith, bit_at-div k (a / 2), div-pow a k)

pub bit_at-bound : (k a : ℕ) → bit_at k a ≤ 1
bit_at-bound zero a = omega arith
bit_at-bound (suc k) a = bit_at-bound k (a / 2)

pub bit_at-bit_or : (k a b : ℕ) → bit_at k (bit_or a b) ≡ max (bit_at k a) (bit_at k b)
bit_at-bit_or zero a b = omega (arith, bit_or-halves a b)
bit_at-bit_or (suc k) a b =
    let half : bit_or a b / 2 ≡ bit_or (a / 2) (b / 2) = omega (arith, bit_or-halves a b) in
    ap (bit_at k) half ∙ bit_at-bit_or k (a / 2) (b / 2)

pub bit_at-bit_and : (k a b : ℕ) → bit_at k (bit_and a b) ≡ min (bit_at k a) (bit_at k b)
bit_at-bit_and zero a b = omega (arith, bit_and-halves a b)
bit_at-bit_and (suc k) a b =
    let half : bit_and a b / 2 ≡ bit_and (a / 2) (b / 2) = omega (arith, bit_and-halves a b) in
    ap (bit_at k) half ∙ bit_at-bit_and k (a / 2) (b / 2)

pub bit_at-zero : (k : ℕ) → bit_at k 0 ≡ 0
bit_at-zero zero = refl
bit_at-zero (suc k) = bit_at-zero k

-- `1 << y` has one bit.
pub bit_at-pow : (k y : ℕ) → bit_at k (2 ^ y) ≡ (if k == y then 1 else 0)
bit_at-pow zero zero = refl
bit_at-pow zero (suc y) = ground (arith, pow-suc 2 y)
bit_at-pow (suc k) zero = ground (arith, bit_at-zero k)
bit_at-pow (suc k) (suc y) =
    let half : 2 ^ suc y / 2 ≡ 2 ^ y = omega (arith, pow-suc 2 y) in
    let same : (if k == y then 1 else 0) ≡ (if suc k == suc y then 1 else 0) = ground arith in
    ap (bit_at k) half ∙ bit_at-pow k y ∙ same

pub pow-lt : (y w : ℕ) → y < w → 2 * 2 ^ y ≤ 2 ^ w
pow-lt y zero h = absurd (omega arith)
pow-lt zero (suc w) h = omega (arith, pow-suc 2 w, pow_pos w)
pow-lt (suc y) (suc w) h = omega (arith, pow-suc 2 w, pow-suc 2 y, pow-lt y w (omega arith))

bit_at-ones : (w k : ℕ) → k < w → bit_at k (2 ^ w - 1) ≡ 1
bit_at-ones zero k h = absurd (omega arith)
bit_at-ones (suc w) zero h = omega (arith, pow-suc 2 w, pow_pos w)
bit_at-ones (suc w) (suc k) h =
    let half : (2 ^ suc w - 1) / 2 ≡ 2 ^ w - 1 = omega (arith, pow-suc 2 w, pow_pos w) in
    ap (bit_at k) half ∙ bit_at-ones w k (omega arith)

-- `!(1 << y)` has all others.
pub bit_at-complement :
    (w k y : ℕ) → k < w → y < w → bit_at k (2 ^ w - 1 - 2 ^ y) ≡ (if k == y then 0 else 1)
bit_at-complement zero k y h l = absurd (omega arith)
bit_at-complement (suc w) zero zero h l = omega (arith, pow-suc 2 w, pow_pos w)
bit_at-complement (suc w) zero (suc y) h l =
    let odd : (2 ^ suc w - 1 - 2 ^ suc y) % 2 ≡ 1 =
      omega (arith, pow-suc 2 w, pow-suc 2 y, pow-lt y w (omega arith), pow_pos w, pow_pos y) in
    ground (arith, odd)
bit_at-complement (suc w) (suc k) zero h l =
    let half : (2 ^ suc w - 1 - 2 ^ 0) / 2 ≡ 2 ^ w - 1 = omega (arith, pow-suc 2 w, pow_pos w) in
    ground (arith, ap (bit_at k) half, bit_at-ones w k (omega arith))
bit_at-complement (suc w) (suc k) (suc y) h l =
    let half : (2 ^ suc w - 1 - 2 ^ suc y) / 2 ≡ 2 ^ w - 1 - 2 ^ y =
      omega (arith, pow-suc 2 w, pow-suc 2 y, pow-lt y w (omega arith)) in
    let same : (if k == y then 0 else 1) ≡ (if suc k == suc y then 0 else 1) = ground arith in
    ap (bit_at k) half ∙ bit_at-complement w k y (omega arith) (omega arith) ∙ same

lt-pow : (n : ℕ) → n < 2 ^ n
lt-pow zero = omega arith
lt-pow (suc n) = omega (arith, lt-pow n, pow-suc 2 n)

no_mask : (a : ℕ) → bit_and a 0 ≡ 0
no_mask a =
    let none_left : 2 ^ a - 2 ^ a ≡ 0 = omega arith in
    let above : a / 2 ^ a ≡ 0 = div-eq_of_lt (lt-pow a) in
    ap (bit_and a) (sym none_left)
    ∙ bit_and-high_ones a a a (omega arith) (lt-pow a)
    ∙ rw above (omega arith)

-- A mask of one bit leaves that bit.
pub bit_and-pow : (y a : ℕ) → bit_and a (2 ^ y) ≡ bit_at y a * 2 ^ y
bit_and-pow zero a = omega (arith, bit_and-halves a 1, no_mask (a / 2))
bit_and-pow (suc y) a =
    let half : 2 ^ suc y / 2 ≡ 2 ^ y = omega (arith, pow-suc 2 y) in
    let twice : bit_at y (a / 2) * 2 ^ suc y ≡ 2 * (bit_at y (a / 2) * 2 ^ y) =
      grind (arith, pow-suc 2 y) in
    omega (
      arith,
      pow-suc 2 y,
      bit_and-halves a (2 ^ suc y),
      ap (bit_and (a / 2)) half,
      bit_and-pow y (a / 2),
      twice,
    )
