-- ===== src/Driver/Hts221/Ctrl1.antt =====
-- src/driver/sensor/hts221/register/ctrl1.rs: power, data rate and block update.
use drogue_device.Base.{ℕ, ◌==◌, if◌then◌else◌, bit_and, bit_or, [], ◌∷◌, Result}
use drogue_device.Driver.I2c.{I2cBus}
use drogue_device.Driver.Hts221.Register.{
  ModifyError, has_bits, byte_at, read_register, modify_register,
}

pub data Power : Type 0 where
  power_down active : Power

pub data BlockDataUpdate : Type 0 where
  continuous msb_lsb_reading : BlockDataUpdate

pub data OutputDataRate : Type 0 where
  one_shot hz1 hz7 hz12p5 : OutputDataRate

pub record Ctrl1 : Type 0 where
  pub power : Power
  pub block_data_update : BlockDataUpdate
  pub output_data_rate : OutputDataRate

unfoldable pub power_of : ℕ → Power
power_of b = if has_bits b 0x80 then active else power_down

unfoldable pub power_byte : Power → ℕ
power_byte power_down = 0b00000000
power_byte active = 0b10000000

unfoldable pub update_of : ℕ → BlockDataUpdate
update_of b = if has_bits b 0x40 then msb_lsb_reading else continuous

unfoldable pub update_byte : BlockDataUpdate → ℕ
update_byte continuous = 0b000
update_byte msb_lsb_reading = 0b100

unfoldable pub rate_of : ℕ → OutputDataRate
rate_of b =
    let v = bit_and b 0b11 in
    if v == 0b01 then hz1 else if v == 0b10 then hz7 else if v == 0b11 then hz12p5 else one_shot

unfoldable pub rate_byte : OutputDataRate → ℕ
rate_byte one_shot = 0b00
rate_byte hz1 = 0b01
rate_byte hz7 = 0b10
rate_byte hz12p5 = 0b11

unfoldable pub of_byte : ℕ → Ctrl1
unfolding power_of update_of rate_of
of_byte b = record {
  power = power_of b;
  output_data_rate = rate_of b;
  block_data_update = update_of b;
}

unfoldable pub to_byte : Ctrl1 → ℕ
unfolding power_byte update_byte rate_byte
to_byte r =
    bit_or (bit_or (power_byte r.power) (rate_byte r.output_data_rate))
      (update_byte r.block_data_update)

module _ (I : I2cBus) where
  unfoldable pub read : (address : ℕ) → I.Bus → Result Ctrl1 I.Fault × I.Bus
  read = read_register I 0x20 1 (λ buf. of_byte (byte_at 0 buf))

  unfoldable pub write : (address : ℕ) → Ctrl1 → I.Bus → Result (Unit {0}) I.Fault × I.Bus
  write address reg bus = I.write address (0x20 ∷ to_byte reg ∷ []) bus

  unfoldable pub modify :
      (address : ℕ) → (Ctrl1 → Ctrl1) → I.Bus → Result (Unit {0}) (ModifyError I.Fault) × I.Bus
  unfolding read write
  modify address f bus = modify_register I (write address) f (read address bus)
