-- ===== src/Driver/Hts221/Register.antt =====
-- src/driver/sensor/hts221/register: what the registers share (`ModifyError`), and those that are only read.
use drogue_device.Base.{
  ℕ, zero, suc, ◌+◌, ◌*◌, Bool, not, ◌||◌, ◌==◌, bit_and, List, [], ◌∷◌, Result, ok, err,
}
use drogue_device.Driver.I2c.{I2cBus}

pub data ModifyError (F : Type 0) : Type 0 where
  read write : F → ModifyError F

-- `(b & mask) != 0`
abbrev pub has_bits : (b mask : ℕ) → Bool
has_bits b mask = not (bit_and b mask == 0)

-- A buffer starts as zeros.
abbrev pub byte_at : ℕ → List ℕ → ℕ
byte_at i [] = 0
byte_at zero (b ∷ buf) = b
byte_at (suc i) (b ∷ buf) = byte_at i buf

-- `i16::from_le_bytes`, as its two's complement.
abbrev pub from_le_bytes : (low high : ℕ) → ℕ
from_le_bytes low high = low + 256 * high

pub record Status : Type 0 where
  pub temperature_available : Bool
  pub humidity_available : Bool

unfoldable pub any_available : Status → Bool
any_available s = s.temperature_available || s.humidity_available

unfoldable pub status_of : ℕ → Status
status_of b = record {
  temperature_available = has_bits b 0b01;
  humidity_available = has_bits b 0b10;
}

module _ (I : I2cBus) where
  abbrev pub decoded :
      {A : Type 0} → (List ℕ → A) → Result (List ℕ) I.Fault × I.Bus → Result A I.Fault × I.Bus
  decoded f (ok buf, bus) = (ok (f buf), bus)
  decoded f (err e, bus) = (err e, bus)

  -- `write_read` of a register into a buffer, which is then converted.
  abbrev pub read_register :
      {A : Type 0}
      → (register room : ℕ) → (List ℕ → A)
      → (address : ℕ) → I.Bus
      → Result A I.Fault × I.Bus
  read_register register room f address bus =
      decoded f (I.write_read address (register ∷ []) room bus)

  abbrev written :
      Result (Unit {0}) I.Fault × I.Bus → Result (Unit {0}) (ModifyError I.Fault) × I.Bus
  written (ok done, bus) = (ok done, bus)
  written (err e, bus) = (err (ModifyError.write e), bus)

  -- `modify` of a control register, by its `read` and its `write`.
  abbrev pub modify_register :
      {R : Type 0}
      → (R → I.Bus → Result (Unit {0}) I.Fault × I.Bus)
      → (R → R)
      → Result R I.Fault × I.Bus
      → Result (Unit {0}) (ModifyError I.Fault) × I.Bus
  modify_register put f (ok reg, bus) = written (put (f reg) bus)
  modify_register put f (err e, bus) = (err (ModifyError.read e), bus)

  -- `Status::read`, `Tout::read`, `Hout::read` and `WhoAmI::read`.
  unfoldable pub read_status : (address : ℕ) → I.Bus → Result Status I.Fault × I.Bus
  read_status = read_register 0x27 1 (λ buf. status_of (byte_at 0 buf))

  unfoldable pub read_tout : (address : ℕ) → I.Bus → Result ℕ I.Fault × I.Bus
  read_tout = read_register 0xAA 2 (λ buf. from_le_bytes (byte_at 0 buf) (byte_at 1 buf))

  unfoldable pub read_hout : (address : ℕ) → I.Bus → Result ℕ I.Fault × I.Bus
  read_hout = read_register 0xA8 2 (λ buf. from_le_bytes (byte_at 0 buf) (byte_at 1 buf))

  unfoldable pub read_who_am_i : (address : ℕ) → I.Bus → Result ℕ I.Fault × I.Bus
  read_who_am_i = read_register 0x0F 1 (λ buf. byte_at 0 buf)
