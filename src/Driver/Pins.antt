-- ===== src/Driver/Pins.antt =====
-- Pins with interrupts (src/hal/gpio/exti_pin.rs, and `InputPin` of embedded-hal) as interfaces, the
-- polarity of outputs (src/hal/gpio/mod.rs), and the button of src/driver/button.rs.
use drogue_device.Base.{
  Bool, true, false, if◌then◌else◌, List, [], ◌∷◌, Outcome, done, panic, ◌>>=◌, Result, ok, err,
}

pub record ExtiPin : Type 1 where
  pub Pin : Type 0
  pub check_interrupt : Pin → Bool × Pin
  pub clear_interrupt_pending_bit : Pin → Pin

pub record InputPin (P : ExtiPin) : Type 1 where
  pub Fault : Type 0
  pub is_high : P.Pin → Result Bool Fault
  pub is_low : P.Pin → Result Bool Fault

pub data Active : Type 0 where
  high low : Active

-- `ActiveHigh` and `ActiveLow`, by the level that is written.
unfoldable pub set_active : Active → Bool
set_active high = true
set_active low = false

unfoldable pub set_inactive : Active → Bool
set_inactive high = false
set_inactive low = true

pub data ButtonEvent : Type 0 where
  pressed released : ButtonEvent

-- `bus` is whether the event bus is bound.
pub record Button (P : ExtiPin) : Type 0 where
  pub pin : P.Pin
  pub active : Active
  pub bus : Bool

module _ (P : ExtiPin) (I : InputPin P) where
  unfoldable pub new : P.Pin → Active → Button P
  new pin active = record { pin = pin; active = active; bus = false }

  abbrev pub read_pin : Active → P.Pin → Result Bool I.Fault
  read_pin high pin = I.is_high pin
  read_pin low pin = I.is_low pin

  -- `.ok().unwrap()`
  abbrev pub unwrap_ok : Result Bool I.Fault → Outcome Bool
  unwrap_ok (ok b) = done b
  unwrap_ok (err e) = panic

  abbrev pub publish : Button P → ButtonEvent → Outcome (List ButtonEvent)
  publish button event = if button.bus then done (event ∷ []) else panic

  -- `Button::on_interrupt`, with what it publishes.
  unfoldable pub on_interrupt : Button P → Outcome (Button P × List ButtonEvent)
  on_interrupt button =
      let (raised, pin) = P.check_interrupt button.pin in
      if raised
      then (do
        is_active ← unwrap_ok (read_pin button.active pin)
        events ← publish button (if is_active then pressed else released)
        done (record button { pin = P.clear_interrupt_pending_bit pin }, events))
      else done (record button { pin = pin }, [])
