-- ===== src/Base/Bits.antt =====
-- `bit_and` with a mask of high bits, for every width: `x & !(2^k - 1)` clears the `k` low bits.
pub mod At
use Prim.Native.Nat.{
  ℕ, zero, suc, ◌+◌, ◌-◌, ◌*◌, ◌/◌, ◌%◌, ◌^◌, ◌≤◌, ◌<◌, min, bit_and, digits, bit_and-bitwise,
}
use mathlib.Core.Path.{◌≡◌, refl, sym, ap, ◌∙◌}
use mathlib.Core.Bool.{Bool, true, false}
use native.Mathlib.Nat.{pow-suc, mul_comm, div-div-eq-div-mul}
use native.Mathlib.Omega.{arith}
use drogue_device.Base.Tests.{if◌then◌else◌}

-- The recursion over binary digits that the native operations stand for, on fuel.
module _ (rest : ℕ → ℕ) (combine : ℕ → ℕ → ℕ) where
  one_more : (n a b : ℕ) → a ≤ n → digits rest combine (suc n) a b ≡ digits rest combine n a b
  one_more (suc k) (suc a) b h =
      ap (λ d. d * 2 + combine (suc a % 2) (b % 2)) (one_more k (suc a / 2) (b / 2) (omega arith))
  one_more zero (suc a) b h = absurd (omega arith)
  one_more (suc n) zero b h = refl
  one_more zero zero b h = refl

  many_more : (k n a b : ℕ) → a ≤ n → digits rest combine (k + n) a b ≡ digits rest combine n a b
  many_more zero n a b h = ap (λ m. digits rest combine m a b) (omega arith)
  many_more (suc k) n a b h =
      let next : suc k + n ≡ suc (k + n) = omega arith in
      rw next (one_more (k + n) a b (omega arith) ∙ many_more k n a b h)

  -- A digit of fuel for each number suffices for its half.
  pub half_fuel :
      (a b : ℕ)
      → digits rest combine a (suc a / 2) b ≡ digits rest combine (suc a / 2) (suc a / 2) b
  half_fuel a b =
      let enough : a ≡ (a - suc a / 2) + suc a / 2 = omega arith in
      ap (λ m. digits rest combine m (suc a / 2) b) enough
      ∙ many_more (a - suc a / 2) (suc a / 2) (suc a / 2) b (omega arith)

-- The law for the lowest bit.
pub bit_and-halves : (a b : ℕ) → bit_and a b ≡ 2 * bit_and (a / 2) (b / 2) + min (a % 2) (b % 2)
bit_and-halves a b = by_digits a
  where
    by_digits : (k : ℕ) → bit_and k b ≡ 2 * bit_and (k / 2) (b / 2) + min (k % 2) (b % 2)
    by_digits (suc k) = omega (
      arith,
      half_fuel (λ y. 0) min k (b / 2),
      bit_and-bitwise (suc k / 2) (b / 2),
      bit_and-bitwise (suc k) b,
    )
    by_digits zero = omega (arith, bit_and-bitwise (0 / 2) (b / 2), bit_and-bitwise 0 b)

pub pow_pos : (k : ℕ) → 0 < 2 ^ k
pow_pos zero = omega arith
pow_pos (suc k) = omega (arith, pow-suc 2 k, pow_pos k)

-- All ones keep a number that fits.
bit_and-ones : (w a : ℕ) → a < 2 ^ w → bit_and a (2 ^ w - 1) ≡ a
bit_and-ones zero zero h = bit_and-bitwise 0 0
bit_and-ones zero (suc a) h = absurd (omega arith)
bit_and-ones (suc w) a h =
    let half : (2 ^ suc w - 1) / 2 ≡ 2 ^ w - 1 = omega (arith, pow-suc 2 w, pow_pos w) in
    omega (
      arith,
      pow-suc 2 w,
      pow_pos w,
      bit_and-halves a (2 ^ suc w - 1),
      ap (bit_and (a / 2)) half,
      bit_and-ones w (a / 2) (omega (arith, pow-suc 2 w)),
    )

pub div-pow : (a k : ℕ) → a / 2 ^ suc k ≡ a / 2 / 2 ^ k
div-pow a k = rw (pow-suc 2 k, mul_comm (2 ^ k) 2) (sym (div-div-eq-div-mul a 2 (2 ^ k)))

-- High ones clear the low bits.
pub bit_and-high_ones :
    (k w a : ℕ) → k ≤ w → a < 2 ^ w → bit_and a (2 ^ w - 2 ^ k) ≡ a / 2 ^ k * 2 ^ k
bit_and-high_ones zero w a h l = omega (arith, bit_and-ones w a l)
bit_and-high_ones (suc k) zero a h l = absurd (omega arith)
bit_and-high_ones (suc k) (suc w) a h l =
    let half : (2 ^ suc w - 2 ^ suc k) / 2 ≡ 2 ^ w - 2 ^ k =
      omega (arith, pow-suc 2 w, pow-suc 2 k) in
    let high : a / 2 ^ suc k * 2 ^ suc k ≡ 2 * (a / 2 / 2 ^ k * 2 ^ k) =
      rw (div-pow a k, pow-suc 2 k) (omega arith) in
    omega (
      arith,
      pow-suc 2 w,
      pow-suc 2 k,
      bit_and-halves a (2 ^ suc w - 2 ^ suc k),
      ap (bit_and (a / 2)) half,
      high,
      bit_and-high_ones k w (a / 2) (omega arith) (omega (arith, pow-suc 2 w)),
    )

-- A test that every value below a bound passes.
unfoldable pub passes_below : (ℕ → Bool) → ℕ → Bool
passes_below test zero = true
passes_below test (suc bound) = if test bound then passes_below test bound else false

pub passes-lt :
    (test : ℕ → Bool) (bound v : ℕ) → passes_below test bound ≡ true → v < bound → test v ≡ true
unfolding passes_below
passes-lt test zero v all small = absurd (omega arith)
passes-lt test (suc bound) v all small = ground (arith, passes-lt test bound v)
