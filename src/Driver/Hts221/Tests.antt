-- ===== src/Driver/Hts221/Tests.antt =====
-- A sensor on a bus, and the theorems at concrete inputs.
use drogue_device.Base.{
  ℕ, ◌+◌, ◌*◌, ◌/◌, ◌-◌, ◌≡◌, refl, Bool, true, false, none, some, List, [], ◌∷◌, done, err, arith,
}
use drogue_device.Driver.I2c.{I2cBus}
use drogue_device.Driver.Hts221.Calibration.{Float, of_bytes, calibrated_humidity}
use drogue_device.Driver.Hts221.Sensor.{Sensor, on_initialize, on_start}
use drogue_device.Driver.Hts221.Sensor.Initialize.{
  IsInitialized, on_initialize-IsInitialized, on_initialize-never,
}
use drogue_device.Driver.Hts221.Sensor.Acquire.{interpolated}
use drogue_device.Driver.Pins.{ExtiPin}
use drogue_device.Driver.Hts221.Ready.{Ready, IsExti, on_interrupt, measure, measure-on_interrupt}
use drogue_device.Driver.Hts221.RoundTrip.{decode-encode}
use drogue_device.Driver.Hts221.Ctrl1
use drogue_device.Driver.Hts221.Ctrl2
use drogue_device.Driver.Hts221.Ctrl3
use drogue_device.Driver.Hts221.Simulated.{
  Registers, register, simulated, simulated-IsHts221, powered_off,
}

decode-encode_example :
    (Ctrl1.of_byte 0b10000001 ≡ record {
      power = Ctrl1.active;
      block_data_update = Ctrl1.continuous;
      output_data_rate = Ctrl1.hz1;
    })
    × (Ctrl2.of_byte
          (Ctrl2.to_byte (record { boot = true; heater = false; enable_one_shot = true }))
        ≡ record { boot = true; heater = false; enable_one_shot = true })
    × (Ctrl3.of_byte
          (Ctrl3.to_byte (record { active = Ctrl3.low; mode = Ctrl3.open_drain; enable = true }))
        ≡ record { active = Ctrl3.low; mode = Ctrl3.open_drain; enable = true })
    × (Ctrl2.to_byte (Ctrl2.of_byte 0xff) ≡ 0x83)
    × (Ctrl3.to_byte (Ctrl3.of_byte 0xff) ≡ 0xc4)
unfolding Ctrl1.to_byte Ctrl1.of_byte
decode-encode_example =
    decode-encode 0xff
      (record {
        power = Ctrl1.active;
        block_data_update = Ctrl1.continuous;
        output_data_rate = Ctrl1.hz1;
      })
      (record { boot = true; heater = false; enable_one_shot = true })
      (record { active = Ctrl3.low; mode = Ctrl3.open_drain; enable = true }) (omega arith)

-- Floats are stood for by natural numbers.
abbrev floats : Float
floats = record {
  F32 = ℕ;
  of_u8 = λ n. n;
  of_i16 = λ n. n;
  add = λ a b. a + b;
  sub = λ a b. a - b;
  mul = λ a b. a * b;
  div = λ a b. a / b;
}

abbrev sensor : Sensor floats
sensor = record { address = 0x5F; i2c = true; calibration = none; bus = true }

on_initialize-IsInitialized_example :
    (bus : Registers) × (on_initialize floats simulated 2 sensor powered_off ≡ some bus)
    × IsInitialized simulated register bus
on_initialize-IsInitialized_example =
    on_initialize-IsInitialized simulated register simulated-IsHts221 floats 2 sensor powered_off
      (omega arith) refl refl

-- A bus to which no sensor is connected.
abbrev empty_bus : I2cBus
empty_bus = record {
  Bus = Unit {0};
  Fault = ℕ;
  read = λ address room s. (err 9, s);
  write = λ address bytes s. (err 9, s);
  write_read = λ address bytes room s. (err 9, s);
}

on_initialize-never_example : on_initialize floats empty_bus 1000 sensor tt ≡ none
on_initialize-never_example =
    on_initialize-never floats empty_bus (λ r room bus. (9, refl)) 1000 sensor tt refl refl

abbrev block : List ℕ
block = 1 ∷ 2 ∷ 3 ∷ 4 ∷ 0 ∷ 5 ∷ 6 ∷ 0 ∷ 0 ∷ 0 ∷ 9 ∷ 0 ∷ 2 ∷ 0 ∷ 4 ∷ 0 ∷ []

-- A pin that is pending or not.
abbrev exti : ExtiPin
exti = record {
  Pin = Bool;
  check_interrupt = λ p. (p, p);
  clear_interrupt_pending_bit = λ p. false;
}

exti-IsExti : IsExti exti
exti-IsExti = record { cleared = λ p. refl; checked = λ p clear. clear }

abbrev ready_pin : Ready exti
ready_pin = record { pin = true; sensor = true }

measure-on_interrupt_example :
    let started = on_start floats simulated sensor powered_off in
    let interrupted = on_interrupt exti ready_pin in
    (interrupted.0.pin ≡ false)
    × (measure floats simulated interrupted.1 started.0 started.1
        ≡ done (
          record {
            temperature = interpolated floats simulated block (7 ∷ 0 ∷ []);
            relative_humidity = calibrated_humidity floats (of_bytes floats block) 5;
          }
              ∷ [],
          record powered_off { humidity_ready = false; temperature_ready = false },
        ))
measure-on_interrupt_example =
    measure-on_interrupt floats simulated exti ready_pin sensor block (7 ∷ 0 ∷ []) (5 ∷ 0 ∷ [])
      powered_off powered_off (record powered_off { temperature_ready = false })
      (record powered_off { humidity_ready = false; temperature_ready = false }) exti-IsExti refl
      refl refl (omega arith) refl refl refl
