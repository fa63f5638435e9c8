-- ===== src/Driver/Hts221/Ready.antt =====
-- src/driver/sensor/hts221/ready.rs: the interrupt of the data-ready pin, which notifies the sensor.
use drogue_device.Base.{
  ℕ, ◌<◌, ◌≡◌, refl, Bool, true, false, if◌then◌else◌, List, [], ◌∷◌, ◌++◌, Outcome, done, ◌>>=◌,
  ok, inl, inr, Bool-cases,
}
use drogue_device.Driver.Pins.{ExtiPin}
use drogue_device.Driver.I2c.{I2cBus}
use drogue_device.Driver.Hts221.Register.{byte_at, from_le_bytes}
use drogue_device.Driver.Hts221.Calibration.{Float, of_bytes, calibrated_humidity}
use drogue_device.Driver.Hts221.Calibration
use drogue_device.Driver.Hts221.Sensor.{Sensor, SensorAcquisition, on_start, on_data_ready}
use drogue_device.Driver.Hts221.Sensor.Acquire.{interpolated, on_data_ready-on_start}

pub data DataReady : Type 0 where
  data_ready : DataReady

-- `sensor` is whether the sensor is bound.
pub record Ready (P : ExtiPin) : Type 0 where
  pub pin : P.Pin
  pub sensor : Bool

module _ (P : ExtiPin) where
  unfoldable pub new : P.Pin → Ready P
  new pin = record { pin = pin; sensor = false }

  -- `Ready::on_interrupt`, with the notifications of the sensor.
  unfoldable pub on_interrupt : Ready P → Ready P × List DataReady
  on_interrupt r =
      let (raised, pin) = P.check_interrupt r.pin in
      if raised
      then (
        record r { pin = P.clear_interrupt_pending_bit pin },
        if r.sensor then data_ready ∷ [] else [],
      )
      else (record r { pin = pin }, [])

-- Clearing the bit clears it, and a check of a clear bit leaves it clear.
pub record IsExti (P : ExtiPin) : Type 0 where
  pub cleared : (p : P.Pin) → (P.check_interrupt (P.clear_interrupt_pending_bit p)).0 ≡ false
  pub checked :
      (p : P.Pin)
      → (P.check_interrupt p).0 ≡ false
      → (P.check_interrupt (P.check_interrupt p).1).0 ≡ false

module _ (F : Float) (I : I2cBus) where
  -- The sensor handles its notifications one after the other.
  abbrev pub measure :
      List DataReady → Sensor F → I.Bus → Outcome (List (SensorAcquisition F) × I.Bus)
  measure [] s bus = done ([], bus)
  measure (data_ready ∷ more) s bus = do
    (published, bus') ← on_data_ready F I s bus
    (rest, bus'') ← measure more s bus'
    done (published ++ rest, bus'')

  on_start-bus :
      (s : Sensor F) (buf : List ℕ) (bus b : I.Bus)
      → s.i2c ≡ true
      → I.write_read s.address (0xB0 ∷ []) 16 bus ≡ (ok buf, b)
      → (on_start F I s bus).1 ≡ b
  unfolding on_start Calibration.read
  on_start-bus s buf bus b bound e = rw (bound, e) refl

  -- A sensor that is bound to a bus and to the event bus is started, on a bus that answers the
  -- reads of the 16 bytes of calibration, then of the temperature, then of the humidity; then the
  -- data-ready pin, bound to the sensor, gets an interrupt, where clearing its bit clears it.
  -- After it no interrupt is pending on the pin. If one was, the sensor is notified once and
  -- publishes once: the humidity by the calibration, and the temperature by the line through its
  -- two points, where the first point is its low byte alone (the two bits of byte 5 that belong to
  -- it are lost) and the second has both of its bits. If none was, nothing is published and the
  -- bus is as after the start.
  pub measure-on_interrupt :
      (P : ExtiPin) (r : Ready P) (s : Sensor F) (buf t_buf h_buf : List ℕ) (bus b c d : I.Bus)
      → IsExti P
      → r.sensor ≡ true
      → s.i2c ≡ true
      → s.bus ≡ true
      → byte_at 5 buf < 256
      → I.write_read s.address (0xB0 ∷ []) 16 bus ≡ (ok buf, b)
      → I.write_read s.address (0xAA ∷ []) 2 b ≡ (ok t_buf, c)
      → I.write_read s.address (0xA8 ∷ []) 2 c ≡ (ok h_buf, d)
      → let started = on_start F I s bus in
        let interrupted = on_interrupt P r in
        ((P.check_interrupt interrupted.0.pin).0 ≡ false)
        × (measure interrupted.1 started.0 started.1
            ≡ done (
                if (P.check_interrupt r.pin).0
                then (
                  record {
                    temperature = interpolated F I buf t_buf;
                    relative_humidity =
                        calibrated_humidity F
                          (of_bytes F buf)
                          (from_le_bytes (byte_at 0 h_buf) (byte_at 1 h_buf));
                  }
                      ∷ [],
                  d,
                )
                else ([], b)))
  unfolding on_interrupt
  measure-on_interrupt P r s buf t_buf h_buf bus b c d exti notifies bound published byte e et eh =
      let acquired =
        on_data_ready-on_start F I s buf t_buf h_buf bus b c d bound published byte e et eh in
      elim (Bool-cases (P.check_interrupt r.pin).0) [
        | inl raised ↦ (rw raised (exti.cleared _), rw (raised, notifies, acquired) refl)
        | inr quiet ↦
            (rw quiet (exti.checked r.pin quiet), rw (quiet, on_start-bus s buf bus b bound e) refl)
      ]
