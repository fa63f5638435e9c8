-- ===== src/Hal/Timer.antt =====
-- src/hal/timer: the timers of the nRF (nrf.rs) and of the STM32L4 (stm32l4xx.rs). Conversions of the
-- time domain are a parameter, and so is what the chip does.
pub mod Period
mod Tests
use drogue_device.Base.{
  ℕ, ◌+◌, ◌-◌, ◌/◌, ◌%◌, ◌^◌, Bool, true, false, ◌==◌, if◌then◌else◌, Option, Outcome, done, panic,
  ◌>>=◌, unwrap,
}

-- `Milliseconds::to_rate`, in millihertz, and the conversion of hertz to millihertz.
pub record Rates : Type 0 where
  pub to_rate : ℕ → Option ℕ
  pub to_millihertz : ℕ → ℕ

-- `clock_rate / deadline`; a division by zero is a panic.
abbrev pub divide : (clock_rate deadline : ℕ) → Outcome ℕ
divide clock_rate deadline = if deadline == 0 then panic else done (clock_rate / deadline)

module _ (R : Rates) where
  -- The cycles of a clock for a duration.
  unfoldable pub cycles : (hertz duration : ℕ) → Outcome ℕ
  cycles hertz duration = do
    deadline ← unwrap (R.to_rate duration)
    divide (R.to_millihertz hertz) deadline

-- The timer of the nRF: `CountDown::start`, and its two registers.
pub record NrfTimer : Type 1 where
  pub Timer : Type 0
  pub ticks_per_second : ℕ
  pub count_down : ℕ → Timer → Timer
  pub task_stop : Timer → Timer
  pub reset_compare : Timer → Timer

module _ (R : Rates) (N : NrfTimer) where
  unfoldable pub start_nrf : (duration : ℕ) → N.Timer → Outcome N.Timer
  start_nrf duration timer = do
    count ← cycles R N.ticks_per_second duration
    done (N.count_down count timer)

  unfoldable pub clear_nrf : N.Timer → N.Timer
  clear_nrf timer = N.reset_compare (N.task_stop timer)

-- The registers that are used, and the field `expiration`.
pub record Tim : Type 0 where
  pub cen : Bool
  pub opm : Bool
  pub uie : Bool
  pub uif : Bool
  pub psc : ℕ
  pub arr : ℕ
  pub expiration : ℕ

-- What an update event (EGR.UG) does to them.
pub record Stm32 : Type 0 where
  pub pclk1 : ℕ
  pub update : Tim → Tim

unfoldable pub clear_update_interrupt_flag : Tim → Tim
clear_update_interrupt_flag tim = record tim { uif = false }

-- `ticks - 1` in 64 bits
abbrev pub prescaler : ℕ → ℕ
prescaler ticks = (ticks + 2 ^ 64 - 1) % 2 ^ 64 / 2 ^ 16

abbrev pub reload : ℕ → ℕ
reload ticks = ticks / (prescaler ticks + 1) % 2 ^ 16

module _ (S : Stm32) where
  unfoldable pub program : (ticks : ℕ) → Tim → Tim
  program ticks tim =
      let prescaled = record tim { psc = prescaler ticks % 2 ^ 16 } in
      let loaded = record prescaled {
        expiration = reload ticks;
        uie = false;
        arr = reload ticks;
      } in
      let cleared = clear_update_interrupt_flag (S.update loaded) in
      record cleared { uie = true; cen = true; opm = true }

  unfoldable pub start : Rates → (duration : ℕ) → Tim → Outcome Tim
  start R duration tim = do
    ticks ← cycles R S.pclk1 duration
    done (program ticks (record tim { cen = false }))
