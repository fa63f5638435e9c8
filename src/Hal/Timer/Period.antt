-- ===== src/Hal/Timer/Period.antt =====
-- The period that the timer of the STM32L4 is programmed for.
use drogue_device.Base.{
  ℕ, ◌+◌, ◌-◌, ◌*◌, ◌/◌, ◌%◌, ◌^◌, ◌≤◌, ◌<◌, ◌≡◌, refl, sym, ap, ◌∙◌, Bool, true, false, ◌==◌,
  ==_iff, ltb, none, some, done, panic, arith, ◌⊎◌, inl, inr,
}
use native.Mathlib.Nat.{
  mul-div_cancel, div-eq_of_lt, le-div_iff_mul-le, div-le_self, div-mul-le_self, lt-div-mul-add,
  div-lt_iff_lt-mul, mod-eq_of_lt,
}
use drogue_device.Hal.Timer.{
  Rates, cycles, Tim, Stm32, program, prescaler, reload, start, clear_update_interrupt_flag,
}

-- The documented conversions: a rate in millihertz is 10^6 divided by the milliseconds, rounded down,
-- and there is none for 0.
pub record IsRates (R : Rates) : Type 0 where
  pub zero_rate : R.to_rate 0 ≡ none
  pub rate : (ms : ℕ) → 0 < ms → R.to_rate ms ≡ some (1000000 / ms)
  pub millihertz : (hertz : ℕ) → R.to_millihertz hertz ≡ 1000 * hertz

-- An update event changes none of these registers but its flag.
pub record KeepsTim (S : Stm32) : Type 0 where
  pub psc : (t : Tim) → (S.update t).psc ≡ t.psc
  pub arr : (t : Tim) → (S.update t).arr ≡ t.arr
  pub expiration : (t : Tim) → (S.update t).expiration ≡ t.expiration

-- `psc + 1` ticks a step: `arr` steps meet the ticks but for less than a step, or `arr` is 0.
abbrev pub HasPeriod : (ticks psc arr : ℕ) → Type 0
HasPeriod ticks psc arr =
    ((0 < ticks % 2 ^ 16) × ((psc + 1) * arr ≤ ticks) × (ticks < (psc + 1) * arr + (psc + 1)))
    ⊎ ((ticks % 2 ^ 16 ≡ 0) × (arr ≡ 0))

-- The counter runs once, with its interrupt on.
pub record IsRunningFor (ticks : ℕ) (t : Tim) : Type 0 where
  pub cen : t.cen ≡ true
  pub opm : t.opm ≡ true
  pub uie : t.uie ≡ true
  pub uif : t.uif ≡ false
  pub expiration : t.expiration ≡ t.arr
  pub period : HasPeriod ticks t.psc t.arr

prescaler-bound : (ticks : ℕ) → 0 < ticks → ticks ≤ 2 ^ 32 → prescaler ticks ≡ (ticks - 1) / 2 ^ 16
prescaler-bound ticks h l = omega arith

reload-exact : (p : ℕ) → 0 < p → 2 ^ 16 * p / p % 2 ^ 16 ≡ 0
reload-exact p h =
    let whole : 2 ^ 16 * p / p ≡ 2 ^ 16 = mul-div_cancel (2 ^ 16) h in ap (λ n. n % 2 ^ 16) whole

reload-period :
    (ticks p : ℕ)
    → 0 < p
    → ticks < 2 ^ 16 * p
    → (p * (ticks / p % 2 ^ 16) ≤ ticks) × (ticks < p * (ticks / p % 2 ^ 16) + p)
reload-period ticks p h l =
    let below : ticks / p < 2 ^ 16 = (div-lt_iff_lt-mul h).1 l in
    let same : ticks / p % 2 ^ 16 ≡ ticks / p = mod-eq_of_lt below in
    rw same
      (grind (arith, div-mul-le_self ticks p), grind (arith, lt-div-mul-add {a = ticks} {b = p} h))

programmed-HasPeriod :
    (ticks : ℕ)
    → 0 < ticks
    → ticks ≤ 2 ^ 32
    → HasPeriod ticks (prescaler ticks % 2 ^ 16) (reload ticks)
programmed-HasPeriod ticks h l =
    let k = (ticks - 1) / 2 ^ 16 in
    let fits : k % 2 ^ 16 ≡ k = omega arith in
    rw (prescaler-bound ticks h l, fits) (by_rest k refl (ticks % 2 ^ 16 == 0) refl)
  where
    by_rest :
        (k : ℕ)
        → k ≡ (ticks - 1) / 2 ^ 16
        → (b : Bool) → (ticks % 2 ^ 16 == 0) ≡ b
        → HasPeriod ticks k (ticks / (k + 1) % 2 ^ 16)
    by_rest k e true whole =
        let zero_rest : ticks % 2 ^ 16 ≡ 0 = (==_iff _ 0).0 whole in
        let exact : ticks ≡ 2 ^ 16 * (k + 1) = omega arith in
        inr (zero_rest, ap (λ n. n / (k + 1) % 2 ^ 16) exact ∙ reload-exact (k + 1) (omega arith))
    by_rest k e false broken =
        let rest : 0 < ticks % 2 ^ 16 = ground arith in
        let (low, high) = reload-period ticks (k + 1) (omega arith) (omega arith) in
        inl (rest, low, high)

program-IsRunningFor :
    (S : Stm32) (ticks : ℕ) (t : Tim)
    → KeepsTim S
    → 0 < ticks
    → ticks ≤ 2 ^ 32
    → IsRunningFor ticks (program S ticks t)
unfolding program clear_update_interrupt_flag
program-IsRunningFor S ticks t keeps h l = record {
  cen = refl;
  opm = refl;
  uie = refl;
  uif = refl;
  expiration = keeps.expiration _ ∙ sym (keeps.arr _);
  period = rw (keeps.psc _, keeps.arr _) (programmed-HasPeriod ticks h l);
}

-- For a timer clock of at least 1 kHz and the documented conversions (the rate is 10^6 / ms
-- millihertz, rounded down), Timer::start of the STM32L4 panics for 0 ms and for more than 10^6
-- ms; for any other duration whose ticks at that rate are at most 2^32 it starts the counter for
-- one run with its interrupt on and its flag clear, and (psc + 1) * arr is at most these ticks and
-- short of them by less than psc + 1 - unless the ticks are a multiple of 65536: then arr is 0.
pub start-IsRunningFor :
    (S : Stm32) (R : Rates) (ms : ℕ) (t : Tim)
    → KeepsTim S
    → IsRates R
    → 1000 ≤ S.pclk1
    → 1000 * S.pclk1 / (1000000 / ms) ≤ 2 ^ 32
    → (((ms ≡ 0) ⊎ (1000000 < ms)) × (start S R ms t ≡ panic))
      ⊎ ((0 < ms)
          × (ms ≤ 1000000)
          × ((s : Tim) × (start S R ms t ≡ done s)
              × IsRunningFor (1000 * S.pclk1 / (1000000 / ms)) s))
unfolding start cycles
start-IsRunningFor S R ms t keeps rates clock fits = by_range (ms == 0) (ltb 1000000 ms) refl refl
  where
    ticks : ℕ
    ticks = 1000 * S.pclk1 / (1000000 / ms)

    by_range :
        (b c : Bool)
        → (ms == 0) ≡ b
        → ltb 1000000 ms ≡ c
        → (((ms ≡ 0) ⊎ (1000000 < ms)) × (start S R ms t ≡ panic))
          ⊎ ((0 < ms)
              × (ms ≤ 1000000)
              × ((s : Tim) × (start S R ms t ≡ done s) × IsRunningFor ticks s))
    by_range true c e e' =
        let none_given : ms ≡ 0 = (==_iff ms 0).0 e in
        inl (inl none_given, rw (none_given, rates.zero_rate) refl)
    by_range false true e e' =
        let no_rate : 1000000 / ms ≡ 0 = div-eq_of_lt (ground arith) in
        inl (inr (ground arith), rw (rates.rate ms (ground arith), no_rate) refl)
    by_range false false e e' =
        let positive : 0 < ms = ground arith in
        let short : ms ≤ 1000000 = ground arith in
        let rate_positive : 0 < 1000000 / ms = (le-div_iff_mul-le positive).1 (omega arith) in
        let slow : 1000000 / ms ≤ 1000000 = div-le_self 1000000 ms in
        let some_ticks : 0 < ticks = (le-div_iff_mul-le rate_positive).1 (omega arith) in
        let nonzero : (1000000 / ms == 0) ≡ false = ground arith in
        inr (
          positive,
          short,
          (
            program S ticks (record t { cen = false }),
            rw (rates.rate ms positive, nonzero, rates.millihertz S.pclk1) refl,
            program-IsRunningFor S ticks (record t { cen = false }) keeps some_ticks fits,
          ),
        )
