-- ===== src/Driver/Hts221/Ctrl3.antt =====
-- src/driver/sensor/hts221/register/ctrl3.rs: the data-ready pin.
use drogue_device.Base.{ℕ, Bool, if◌then◌else◌, bit_or, [], ◌∷◌, Result}
use drogue_device.Driver.I2c.{I2cBus}
use drogue_device.Driver.Hts221.Register.{
  ModifyError, has_bits, byte_at, read_register, modify_register,
}

pub data ReadyMode : Type 0 where
  push_pull open_drain : ReadyMode

pub data ActiveState : Type 0 where
  high low : ActiveState

pub record Ctrl3 : Type 0 where
  pub active : ActiveState
  pub mode : ReadyMode
  pub enable : Bool

unfoldable pub mode_of : ℕ → ReadyMode
mode_of b = if has_bits b 0b01000000 then open_drain else push_pull

unfoldable pub mode_byte : ReadyMode → ℕ
mode_byte push_pull = 0b00000000
mode_byte open_drain = 0b01000000

unfoldable pub state_of : ℕ → ActiveState
state_of b = if has_bits b 0b10000000 then low else high

unfoldable pub state_byte : ActiveState → ℕ
state_byte high = 0b00000000
state_byte low = 0b10000000

unfoldable pub of_byte : ℕ → Ctrl3
unfolding mode_of state_of
of_byte b = record { active = state_of b; mode = mode_of b; enable = has_bits b 0b00000100 }

unfoldable pub to_byte : Ctrl3 → ℕ
unfolding mode_byte state_byte
to_byte r =
    bit_or (bit_or (state_byte r.active) (mode_byte r.mode)) (if r.enable then 0b100 else 0b000)

module _ (I : I2cBus) where
  unfoldable pub read : (address : ℕ) → I.Bus → Result Ctrl3 I.Fault × I.Bus
  read = read_register I 0x22 1 (λ buf. of_byte (byte_at 0 buf))

  unfoldable pub write : (address : ℕ) → Ctrl3 → I.Bus → Result (Unit {0}) I.Fault × I.Bus
  write address reg bus = I.write address (0x22 ∷ to_byte reg ∷ []) bus

  unfoldable pub modify :
      (address : ℕ) → (Ctrl3 → Ctrl3) → I.Bus → Result (Unit {0}) (ModifyError I.Fault) × I.Bus
  unfolding read write
  modify address f bus = modify_register I (write address) f (read address bus)
