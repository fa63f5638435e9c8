-- ===== src/Driver/Hts221/Sensor.antt =====
-- src/driver/sensor/hts221/sensor.rs: the sensor's actor.
pub mod Initialize
pub mod Acquire
use drogue_device.Base.{
  ℕ, zero, suc, Bool, true, false, if◌then◌else◌, Option, none, some, List, [], ◌∷◌, Outcome, done,
  panic, Result, ok, err,
}
use drogue_device.Driver.I2c.{I2cBus}
use drogue_device.Driver.Hts221.Register.{Status, any_available, read_status, read_tout, read_hout}
use drogue_device.Driver.Hts221.Ctrl1.{active, hz1, msb_lsb_reading}
use drogue_device.Driver.Hts221.Calibration.{
  Float, Calibration, calibrated_temperature, calibrated_humidity,
}
use drogue_device.Driver.Hts221.Calibration
use drogue_device.Driver.Hts221.Ctrl1
use drogue_device.Driver.Hts221.Ctrl2
use drogue_device.Driver.Hts221.Ctrl3

-- Whether the I2C actor and the event bus are bound, and the calibration. `bus` is the event bus.
pub record Sensor (F : Float) : Type 0 where
  pub address : ℕ
  pub i2c : Bool
  pub calibration : Option (Calibration F)
  pub bus : Bool

-- What is published on the event bus.
pub record SensorAcquisition (F : Float) : Type 0 where
  pub temperature : F.F32
  pub relative_humidity : F.F32

module _ (F : Float) where
  unfoldable pub new : Sensor F
  new = record { address = 0x5F; i2c = false; calibration = none; bus = false }

module _ (I : I2cBus) where
  abbrev pub or_again : (I.Bus → Option I.Bus) → Result Status I.Fault × I.Bus → Option I.Bus
  or_again again (ok status, bus) = if any_available status then again bus else some bus
  or_again again (err e, bus) = again bus

  -- The loop of `on_initialize`, on fuel: `none` when it runs out.
  unfoldable pub drain : (fuel address : ℕ) → I.Bus → Option I.Bus
  drain zero address bus = none
  drain (suc fuel) address bus =
      or_again (λ b. drain fuel address (read_tout I address (read_hout I address b).1).1)
        (read_status I address bus)

  -- Failures of the control registers are ignored (`.ok()`).
  unfoldable pub set_up : (address : ℕ) → I.Bus → I.Bus
  set_up address bus =
      let booted = (Ctrl2.modify I address (λ r. record r { boot = true }) bus).1 in
      let powered =
        (Ctrl1.modify I address
          (λ r. record r {
            power = active;
            output_data_rate = hz1;
            block_data_update = msb_lsb_reading;
          })
          booted).1 in
      (Ctrl3.modify I address (λ r. record r { enable = true }) powered).1

module _ (F : Float) (I : I2cBus) where
  unfoldable pub on_initialize : (fuel : ℕ) → Sensor F → I.Bus → Option I.Bus
  on_initialize fuel s bus =
      if s.i2c then drain I fuel s.address (set_up I s.address bus) else some bus

  abbrev calibrated : Sensor F → Result (Calibration F) I.Fault × I.Bus → Sensor F × I.Bus
  calibrated s (ok calibration, bus) = (record s { calibration = some calibration }, bus)
  calibrated s (err e, bus) = (s, bus)

  unfoldable pub on_start : Sensor F → I.Bus → Sensor F × I.Bus
  on_start s bus = if s.i2c then calibrated s (Calibration.read F I s.address bus) else (s, bus)

  -- `bus.unwrap().publish(..)`
  abbrev pub publish :
      Sensor F → SensorAcquisition F → I.Bus → Outcome (List (SensorAcquisition F) × I.Bus)
  publish s acquisition bus = if s.bus then done (acquisition ∷ [], bus) else panic

  abbrev pub with_humidity :
      Sensor F
      → Calibration F
      → F.F32
      → Result ℕ I.Fault × I.Bus
      → Outcome (List (SensorAcquisition F) × I.Bus)
  with_humidity s calibration temperature (ok h_out, bus) =
      publish s
        (record {
          temperature = temperature;
          relative_humidity = calibrated_humidity F calibration h_out;
        })
        bus
  with_humidity s calibration temperature (err e, bus) = done ([], bus)

  abbrev pub with_temperature :
      Sensor F
      → Calibration F
      → Result ℕ I.Fault × I.Bus
      → Outcome (List (SensorAcquisition F) × I.Bus)
  with_temperature s calibration (ok t_out, bus) =
      with_humidity s calibration (calibrated_temperature F calibration t_out)
        (read_hout I s.address bus)
  with_temperature s calibration (err e, bus) = done ([], bus)

  abbrev pub acquire :
      Option (Calibration F) → Sensor F → I.Bus → Outcome (List (SensorAcquisition F) × I.Bus)
  acquire none s bus = done ([], bus)
  acquire (some calibration) s bus = with_temperature s calibration (read_tout I s.address bus)

  -- `on_notify` of `DataReady`, with what it publishes.
  unfoldable pub on_data_ready : Sensor F → I.Bus → Outcome (List (SensorAcquisition F) × I.Bus)
  on_data_ready s bus = if s.i2c then acquire s.calibration s bus else done ([], bus)
