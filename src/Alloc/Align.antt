-- ===== src/Alloc/Align.antt =====
-- src/alloc/cortex_m/alloc/mod.rs: `align_down` and `align_up`.
use native.Mathlib.Nat.{
  pow-suc, pow-le-pow_right, div-add-mod', mod-lt, mul-mod_left, mul-le-mul_right,
}
use native.Mathlib.Decide.{dec_lt}
use drogue_device.Base.{
  ℕ, zero, suc, ◌+◌, ◌-◌, ◌*◌, ◌/◌, ◌%◌, ◌^◌, ◌≤◌, ◌<◌, bit_and, ◌≡◌, ap, Bool, true, false, ◌||◌,
  ◌==◌, if◌then◌else◌, Outcome, done, panic, add_usize, sub_usize, not_usize, arith,
}
use drogue_device.Base.Bits.{bit_and-high_ones, pow_pos}

-- `usize::is_power_of_two`: one of the 32 powers that fit.
is_power_below : ℕ → ℕ → Bool
is_power_below zero n = false
is_power_below (suc k) n = n == 2 ^ k || is_power_below k n

unfoldable pub is_power_of_two : ℕ → Bool
unfolding is_power_below
is_power_of_two n = is_power_below 32 n

unfoldable pub align_down : ℕ → ℕ → Outcome ℕ
align_down addr align =
    if is_power_of_two align
    then done (bit_and addr (not_usize (align - 1)))
    else if align == 0
    then done addr
    else panic

unfoldable pub align_up : ℕ → ℕ → Outcome ℕ
align_up addr align = align_down (sub_usize (add_usize addr align) 1) align

-- The alignments that a `Layout` can hold.
pub record IsAlign (align : ℕ) : Type 0 where
  pub shift : ℕ
  pub small : shift < 32
  pub power : align ≡ 2 ^ shift

is_power_below-pow : (n k : ℕ) → k < n → is_power_below n (2 ^ k) ≡ true
unfolding is_power_below
is_power_below-pow zero k h = absurd (omega arith)
is_power_below-pow (suc n) k h =
    ground (arith, is_power_below-pow n k, ap (λ i. 2 ^ i) {x = k} {y = n})

pub IsAlign-pos : {align : ℕ} → IsAlign align → 0 < align
IsAlign-pos a = omega (arith, pow_pos a.shift)

pub IsAlign-lt : {align : ℕ} → IsAlign align → align < 2 ^ 32
IsAlign-lt a = omega (
  arith,
  pow-suc 2 a.shift,
  pow_pos a.shift,
  pow-le-pow_right {n = 2} (omega arith) {i = suc a.shift} {j = 32} a.small,
)

pub IsAlign-is_power_of_two : {align : ℕ} → IsAlign align → is_power_of_two align ≡ true
unfolding is_power_of_two
IsAlign-is_power_of_two a = rw a.power (is_power_below-pow 32 a.shift a.small)

align_down-pow :
    (k addr : ℕ) → k < 32 → addr < 2 ^ 32 → align_down addr (2 ^ k) ≡ done (addr / 2 ^ k * 2 ^ k)
unfolding align_down is_power_of_two
align_down-pow k addr h l =
    rw (is_power_below-pow 32 k h) (rw mask (ap done (bit_and-high_ones k 32 addr (omega arith) l)))
  where
    mask : not_usize (2 ^ k - 1) ≡ 2 ^ 32 - 2 ^ k
    mask = omega (arith, pow_pos k)

pub align_down_lem :
    (addr align : ℕ)
    → IsAlign align
    → addr < 2 ^ 32
    → align_down addr align ≡ done (addr / align * align)
align_down_lem addr align a l = rw a.power (align_down-pow a.shift addr a.small l)

-- The multiple of `align` that `align_up` returns.
unfoldable pub round_up : ℕ → ℕ → ℕ
round_up addr align = (addr + align - 1) / align * align

pub align_up_lem :
    (addr align : ℕ)
    → IsAlign align
    → addr + align ≤ 2 ^ 32
    → align_up addr align ≡ done (round_up addr align)
unfolding align_up round_up
align_up_lem addr align a l =
    rw small (align_down_lem (addr + align - 1) align a (omega (arith, IsAlign-pos a)))
  where
    small : sub_usize (add_usize addr align) 1 ≡ addr + align - 1
    small = omega (arith, IsAlign-pos a)

-- It is the least multiple of `align` that is not below `addr`.
pub record RoundsUp (addr align r : ℕ) : Type 0 where
  pub above : addr ≤ r
  pub near : r < addr + align
  pub multiple : r % align ≡ 0
  pub least : (x : ℕ) → addr ≤ x → x % align ≡ 0 → r ≤ x

pub round_up-RoundsUp : (addr align : ℕ) → 0 < align → RoundsUp addr align (round_up addr align)
unfolding round_up
round_up-RoundsUp addr align h = record {
  above = omega (arith, split, rest);
  near = omega (arith, split, rest);
  multiple = mul-mod_left q align;
  least = λ x l m.
      let whole = div-add-mod' x align in
      let below : (n m : ℕ) → n ≤ m → n * align ≤ m * align = λ n m h. mul-le-mul_right align h in
      elim (dec_lt (x / align) q) [
        | yes lt ↦ absurd (omega (arith, split, rest, whole, below _ _ lt))
        | no ge ↦ omega (arith, whole, below q (x / align) (omega arith))
      ];
}
  where
    q : ℕ
    q = (addr + align - 1) / align

    split : q * align + (addr + align - 1) % align ≡ addr + align - 1
    split = div-add-mod' (addr + align - 1) align

    rest : (addr + align - 1) % align < align
    rest = mod-lt _ h

-- For a power of two below 2 ^ 32 and an address with room for it, align_up does not panic and
-- gives the least multiple of the alignment that is not below the address.
pub align_up-RoundsUp :
    (addr align : ℕ)
    → IsAlign align
    → addr + align ≤ 2 ^ 32
    → (r : ℕ) × (align_up addr align ≡ done r) × RoundsUp addr align r
align_up-RoundsUp addr align a l =
    (round_up addr align, align_up_lem addr align a l, round_up-RoundsUp addr align (IsAlign-pos a))
