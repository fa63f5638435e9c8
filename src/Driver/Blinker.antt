-- ===== src/Driver/Blinker.antt =====
-- src/driver/led/blinker.rs, with the LED of src/driver/led/simple.rs and the timer: an actor that
-- switches an LED on and off. What a handler does to other actors is a list of calls.
pub mod Phases
mod Tests
use drogue_device.Base.{ℕ, zero, suc, Bool, true, false, List, [], ◌∷◌, Outcome, done, panic, ◌>>=◌}
use drogue_device.Driver.Timer.{
  Shared, Effect, starts, wakes, notifies, HalTimer, on_interrupt, on_notify,
}

pub data State : Type 0 where
  on off : State

pub record Blinker : Type 0 where
  pub delay : ℕ

-- The calls on the addresses of the LED and of the timer.
pub data Call : Type 0 where
  turn_on turn_off : Call
  schedule : (delay : ℕ) → State → Call

unfoldable pub on_start : Blinker → List Call
on_start b = schedule b.delay on ∷ []

unfoldable pub on_state : State → Blinker → List Call
on_state on b = turn_on ∷ schedule b.delay off ∷ []
on_state off b = turn_off ∷ schedule b.delay on ∷ []

unfoldable pub adjust_delay : ℕ → Blinker → Blinker
adjust_delay delay b = record b { delay = delay }

module _ (H : HalTimer) where
  -- The blinker, its timer with the hardware below it, and whether the pin of the LED is active.
  pub record System : Type 0 where
    pub blinker : Blinker
    pub timer : Shared State
    pub hardware : H.Timer
    pub lit : Bool

  -- The starts of the hardware among what a handler of the timer does.
  unfoldable pub start_all : List (Effect State) → H.Timer → Outcome H.Timer
  start_all [] t = done t
  start_all (starts ms ∷ effects) t = H.start ms t >>= start_all effects
  start_all (wakes waker ∷ effects) t = start_all effects t
  start_all (notifies state ∷ effects) t = start_all effects t

  -- The messages that the calls send, each handled before the next.
  unfoldable pub handle : Call → System → Outcome System
  handle turn_on s = done (record s { lit = true })
  handle turn_off s = done (record s { lit = false })
  handle (schedule delay state) s = do
    (timer, effects) ← on_notify delay state s.timer
    hardware ← start_all effects s.hardware
    done (record s { timer = timer; hardware = hardware })

  unfoldable pub handle_all : List Call → System → Outcome System
  unfolding handle
  handle_all [] s = done s
  handle_all (call ∷ calls) s = handle call s >>= handle_all calls

  -- A schedule that is due notifies the blinker.
  unfoldable pub deliver : List (Effect State) → System → Outcome System
  unfolding on_state handle_all
  deliver [] s = done s
  deliver (notifies state ∷ effects) s = handle_all (on_state state s.blinker) s >>= deliver effects
  deliver (starts ms ∷ effects) s = deliver effects s
  deliver (wakes waker ∷ effects) s = deliver effects s

  -- One interrupt of the timer, whose flag is cleared first, and all that follows from it.
  unfoldable pub tick : System → Outcome System
  unfolding deliver
  tick s = do
    (timer, effects) ← on_interrupt s.timer
    hardware ← start_all effects (H.clear_update_interrupt_flag s.hardware)
    deliver effects (record s { timer = timer; hardware = hardware })

  unfoldable pub ticks : ℕ → System → Outcome System
  ticks zero s = done s
  ticks (suc n) s = tick s >>= ticks n
