-- ===== src/Driver/Hts221/Sensor/Acquire.antt =====
-- From the calibration that is read at the start to what is published.
use native.Mathlib.Nat.{add-zero}
use drogue_device.Base.{
  ℕ, ◌/◌, ◌^◌, ◌<◌, ◌≡◌, refl, true, ◌==◌, ==_iff, bit_and, List, [], ◌∷◌, done, ok,
}
use drogue_device.Base.Bits.{passes_below, passes-lt}
use drogue_device.Driver.I2c.{I2cBus}
use drogue_device.Driver.Hts221.Register.{byte_at, from_le_bytes, read_tout, read_hout}
use drogue_device.Driver.Hts221.Calibration.{
  Float, Calibration, sub_i16, temperature_of, humidity_of, of_bytes, calibrated_temperature,
  calibrated_humidity,
}
use drogue_device.Driver.Hts221.Calibration
use drogue_device.Driver.Hts221.Sensor.{Sensor, on_start, on_data_ready}

high_bits_table : passes_below (λ b. bit_and b 0b00000011 / 2 ^ 2 == 0) 256 ≡ true
unfolding passes_below
high_bits_table = refl

high_bits_lost : (b : ℕ) → b < 256 → bit_and b 0b00000011 / 2 ^ 2 ≡ 0
high_bits_lost b h = (==_iff _ 0).0 (passes-lt _ 256 b high_bits_table h)

module _ (F : Float) (I : I2cBus) where
  abbrev pub t0 : List ℕ → F.F32
  t0 buf = F.div (F.of_i16 (byte_at 2 buf)) (F.of_u8 8)

  -- The line through the two points of calibration, from T0 on.
  abbrev pub interpolated : (buf t_buf : List ℕ) → F.F32
  interpolated buf t_buf = F.add (t0 buf) (
      F.mul
        (F.div
          (F.sub
            (F.div
              (F.of_i16 (from_le_bytes (byte_at 3 buf) (bit_and (byte_at 5 buf) 0b1100 / 2 ^ 2)))
              (F.of_u8 8))
            (t0 buf))
          (F.of_i16 (
            sub_i16 (from_le_bytes (byte_at 14 buf) (byte_at 15 buf))
              (from_le_bytes (byte_at 12 buf) (byte_at 13 buf)))))
        (F.of_i16 (
          sub_i16 (from_le_bytes (byte_at 0 t_buf) (byte_at 1 t_buf))
            (from_le_bytes (byte_at 12 buf) (byte_at 13 buf)))))

  -- A sensor that is bound to a bus and to the event bus, whose bus answers the reads of the 16
  -- bytes of calibration, of the temperature and of the humidity, is started and notified of data:
  -- it reads the three in this order and publishes once, the humidity by the calibration read at
  -- the start and the temperature by the line through the two points of it, where the first point
  -- is its low byte alone (the two bits of byte 5 that belong to it are lost) and the second has
  -- both of its bits.
  pub on_data_ready-on_start :
      (s : Sensor F) (buf t_buf h_buf : List ℕ) (bus b c d : I.Bus)
      → s.i2c ≡ true
      → s.bus ≡ true
      → byte_at 5 buf < 256
      → I.write_read s.address (0xB0 ∷ []) 16 bus ≡ (ok buf, b)
      → I.write_read s.address (0xAA ∷ []) 2 b ≡ (ok t_buf, c)
      → I.write_read s.address (0xA8 ∷ []) 2 c ≡ (ok h_buf, d)
      → let started = on_start F I s bus in
        on_data_ready F I started.0 started.1
        ≡ done (
          record {
            temperature = interpolated buf t_buf;
            relative_humidity =
                calibrated_humidity F
                  (of_bytes F buf)
                  (from_le_bytes (byte_at 0 h_buf) (byte_at 1 h_buf));
          }
              ∷ [],
          d,
        )
  unfolding on_start on_data_ready Calibration.read read_tout read_hout of_bytes temperature_of
      calibrated_temperature
  on_data_ready-on_start s buf t_buf h_buf bus b c d bound published byte e et eh =
      rw
        (bound, published, e, et, eh, high_bits_lost (byte_at 5 buf) byte, add-zero (byte_at 2 buf))
        refl
