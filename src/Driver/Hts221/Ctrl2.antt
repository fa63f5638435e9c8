-- ===== src/Driver/Hts221/Ctrl2.antt =====
-- src/driver/sensor/hts221/register/ctrl2.rs: boot, heater and single measurements.
use drogue_device.Base.{ℕ, Bool, if◌then◌else◌, bit_or, [], ◌∷◌, Result}
use drogue_device.Driver.I2c.{I2cBus}
use drogue_device.Driver.Hts221.Register.{
  ModifyError, has_bits, byte_at, read_register, modify_register,
}

pub record Ctrl2 : Type 0 where
  pub boot : Bool
  pub heater : Bool
  pub enable_one_shot : Bool

unfoldable pub of_byte : ℕ → Ctrl2
of_byte b = record {
  boot = has_bits b 0b10000000;
  heater = has_bits b 0b00000010;
  enable_one_shot = has_bits b 0b00000001;
}

unfoldable pub to_byte : Ctrl2 → ℕ
to_byte r =
    let val = if r.boot then bit_or 0 0b10000000 else 0 in
    let val = if r.heater then bit_or val 0b00000010 else val in
    if r.enable_one_shot then bit_or val 0b00000001 else val

module _ (I : I2cBus) where
  unfoldable pub read : (address : ℕ) → I.Bus → Result Ctrl2 I.Fault × I.Bus
  read = read_register I 0x21 1 (λ buf. of_byte (byte_at 0 buf))

  unfoldable pub write : (address : ℕ) → Ctrl2 → I.Bus → Result (Unit {0}) I.Fault × I.Bus
  write address reg bus = I.write address (0x21 ∷ to_byte reg ∷ []) bus

  unfoldable pub modify :
      (address : ℕ) → (Ctrl2 → Ctrl2) → I.Bus → Result (Unit {0}) (ModifyError I.Fault) × I.Bus
  unfolding read write
  modify address f bus = modify_register I (write address) f (read address bus)
