-- ===== src/Driver/Hts221/Simulated.antt =====
-- A bus with a simulated sensor, for the tests.
use drogue_device.Base.{
  ℕ, ◌+◌, ◌≡◌, refl, Bool, true, false, ◌==◌, if◌then◌else◌, List, [], ◌∷◌, Result, ok, err, arith,
}
use drogue_device.Driver.I2c.{I2cBus}
use drogue_device.Driver.Hts221.Register.{has_bits}
use drogue_device.Driver.Hts221.Sensor.Initialize.{IsHts221}

-- The registers of a simulated sensor.
pub record Registers : Type 0 where
  pub ctrl1 : ℕ
  pub ctrl2 : ℕ
  pub ctrl3 : ℕ
  pub humidity_ready : Bool
  pub temperature_ready : Bool

abbrev bit : Bool → ℕ → ℕ
bit b n = if b then n else 0

abbrev pub register : Registers → ℕ → ℕ
register s r =
    if r == 0x20
    then s.ctrl1
    else if r == 0x21
    then s.ctrl2
    else if r == 0x22
    then s.ctrl3
    else if r == 0x27
    then bit s.humidity_ready 2 + bit s.temperature_ready 1
    else 0

abbrev store : ℕ → ℕ → Registers → Registers
store r v s =
    if r == 0x20
    then record s { ctrl1 = v }
    else if r == 0x21
    then record s { ctrl2 = v }
    else if r == 0x22
    then record s { ctrl3 = v }
    else s

abbrev writes : ℕ → List ℕ → Registers → Result (Unit {0}) ℕ × Registers
writes address (r ∷ v ∷ []) s = (ok tt, store r v s)
writes address bytes s = (err 0, s)

abbrev load : ℕ → Registers → Result (List ℕ) ℕ × Registers
load r s =
    if r == 0xA8
    then (ok (5 ∷ 0 ∷ []), record s { humidity_ready = false })
    else if r == 0xAA
    then (ok (7 ∷ 0 ∷ []), record s { temperature_ready = false })
    else if r == 0xB0
    then (ok (1 ∷ 2 ∷ 3 ∷ 4 ∷ 0 ∷ 5 ∷ 6 ∷ 0 ∷ 0 ∷ 0 ∷ 9 ∷ 0 ∷ 2 ∷ 0 ∷ 4 ∷ 0 ∷ []), s)
    else (ok (register s r ∷ []), s)

abbrev reads : ℕ → List ℕ → ℕ → Registers → Result (List ℕ) ℕ × Registers
reads address (r ∷ []) room s = load r s
reads address bytes room s = (err 0, s)

abbrev pub simulated : I2cBus
simulated = record {
  Bus = Registers;
  Fault = ℕ;
  read = λ address room s. (err 0, s);
  write = writes;
  write_read = reads;
}

no_humidity : (t : Bool) → has_bits (0 + bit t 1) 2 ≡ false
no_humidity true = refl
no_humidity false = refl

no_temperature : (h : Bool) → has_bits (bit h 2 + 0) 1 ≡ false
no_temperature true = refl
no_temperature false = refl

same_humidity : (h t : Bool) → has_bits (bit h 2 + 0) 2 ≡ has_bits (bit h 2 + bit t 1) 2
same_humidity true true = refl
same_humidity true false = refl
same_humidity false true = refl
same_humidity false false = refl

pub simulated-IsHts221 : IsHts221 simulated register
simulated-IsHts221 = record {
  write_ctrl1 = λ v s. (record s { ctrl1 = v }, refl, refl);
  write_ctrl2 = λ v s. (record s { ctrl2 = v }, refl);
  write_ctrl3 = λ v s. (record s { ctrl3 = v }, refl, refl, refl);
  read_one = λ r s low high. ground (arith, low, high);
  read_humidity = λ s. (
    5 ∷ 0 ∷ [],
    record s { humidity_ready = false },
    refl,
    no_humidity s.temperature_ready,
    refl,
    refl,
  );
  read_temperature = λ s. (
    7 ∷ 0 ∷ [],
    record s { temperature_ready = false },
    refl,
    no_temperature s.humidity_ready,
    same_humidity s.humidity_ready s.temperature_ready,
    refl,
    refl,
  );
}

abbrev pub powered_off : Registers
powered_off = record {
  ctrl1 = 0;
  ctrl2 = 0;
  ctrl3 = 0x80;
  humidity_ready = true;
  temperature_ready = true;
}
