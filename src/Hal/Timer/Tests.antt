-- ===== src/Hal/Timer/Tests.antt =====
-- The timers at concrete durations.
use drogue_device.Base.{
  ℕ, zero, suc, ◌*◌, ◌/◌, ◌≤◌, ◌<◌, ◌≡◌, refl, true, false, Option, none, some, done, panic, arith,
  ◌⊎◌,
}
use drogue_device.Hal.Timer.{Rates, cycles, Tim, Stm32, start, reload}
use drogue_device.Hal.Timer.Period.{IsRates, KeepsTim, IsRunningFor, start-IsRunningFor}

abbrev rate_of : ℕ → Option ℕ
rate_of zero = none
rate_of (suc n) = some (1000000 / suc n)

abbrev rates : Rates
rates = record { to_rate = rate_of; to_millihertz = λ hertz. 1000 * hertz }

rate_of_suc : (ms : ℕ) → 0 < ms → rate_of ms ≡ some (1000000 / ms)
rate_of_suc zero h = absurd (omega arith)
rate_of_suc (suc ms) h = refl

rates-IsRates : IsRates rates
rates-IsRates = record { zero_rate = refl; rate = rate_of_suc; millihertz = λ hertz. refl }

-- At 16 MHz; an update event raises its flag.
abbrev stm32 : Stm32
stm32 = record { pclk1 = 16000000; update = λ t. record t { uif = true } }

stm32-KeepsTim : KeepsTim stm32
stm32-KeepsTim = record { psc = λ t. refl; arr = λ t. refl; expiration = λ t. refl }

abbrev stopped : Tim
stopped = record {
  cen = false;
  opm = false;
  uie = false;
  uif = false;
  psc = 0;
  arr = 0;
  expiration = 0;
}

-- A delay of 600 s is counted as one of 1000 s.
ten_minutes : cycles rates 16000000 600000 ≡ cycles rates 16000000 1000000
unfolding cycles
ten_minutes = refl

-- 65536 ticks: the counter has no steps.
no_steps : reload 65536 ≡ 0
no_steps = refl

start-IsRunningFor_example :
    (((◌≡◌ {A = ℕ} 250 0) ⊎ (1000000 < 250)) × (start stm32 rates 250 stopped ≡ panic))
    ⊎ ((0 < 250)
        × (250 ≤ 1000000)
        × ((s : Tim) × (start stm32 rates 250 stopped ≡ done s)
            × IsRunningFor (1000 * 16000000 / (1000000 / 250)) s))
start-IsRunningFor_example =
    start-IsRunningFor stm32 rates 250 stopped stm32-KeepsTim rates-IsRates (omega arith)
      (omega arith)
