-- ===== src/Driver/Hts221/Calibration.antt =====
-- src/driver/sensor/hts221/register/calibration.rs. `f32` is a parameter; an `i16` is its two's complement,
-- and its subtraction wraps, as in a release build.
use drogue_device.Base.{ℕ, ◌+◌, ◌-◌, ◌%◌, ◌/◌, ◌^◌, bit_and, List, Result}
use drogue_device.Driver.I2c.{I2cBus}
use drogue_device.Driver.Hts221.Register.{byte_at, from_le_bytes, read_register}

-- The operations of `f32` that are used, and the conversions `u8 as f32` and `i16 as f32`.
pub record Float : Type 1 where
  pub F32 : Type 0
  pub of_u8 : ℕ → F32
  pub of_i16 : ℕ → F32
  pub add : F32 → F32 → F32
  pub sub : F32 → F32 → F32
  pub mul : F32 → F32 → F32
  pub div : F32 → F32 → F32

abbrev pub sub_i16 : ℕ → ℕ → ℕ
sub_i16 a b = (a + 65536 - b) % 65536

module _ (F : Float) where
  pub record TemperatureCalibration : Type 0 where
    pub t0_out : ℕ
    pub t1_out : ℕ
    pub t0_degc : F.F32
    pub t1_degc : F.F32
    pub slope : F.F32

  pub record HumidityCalibration : Type 0 where
    pub h0_out : ℕ
    pub h1_out : ℕ
    pub h0_rh : F.F32
    pub h1_rh : F.F32
    pub slope : F.F32

  pub record Calibration : Type 0 where
    pub temperature : TemperatureCalibration
    pub humidity : HumidityCalibration

  unfoldable pub calibrated_temperature : Calibration → (t_out : ℕ) → F.F32
  calibrated_temperature c t_out =
      let t = c.temperature in F.add t.t0_degc (F.mul t.slope (F.of_i16 (sub_i16 t_out t.t0_out)))

  unfoldable pub calibrated_humidity : Calibration → (h_out : ℕ) → F.F32
  calibrated_humidity c h_out =
      let h = c.humidity in F.add h.h0_rh (F.mul h.slope (F.of_i16 (sub_i16 h_out h.h0_out)))

  unfoldable pub temperature_of : List ℕ → TemperatureCalibration
  temperature_of buf =
      let t0_out = from_le_bytes (byte_at 12 buf) (byte_at 13 buf) in
      let t1_out = from_le_bytes (byte_at 14 buf) (byte_at 15 buf) in
      let t_msb = byte_at 5 buf in
      let t0_msb = bit_and t_msb 0b00000011 / 2 ^ 2 in
      let t1_msb = bit_and t_msb 0b00001100 / 2 ^ 2 in
      let t0_degc = F.div (F.of_i16 (from_le_bytes (byte_at 2 buf) t0_msb)) (F.of_u8 8) in
      let t1_degc = F.div (F.of_i16 (from_le_bytes (byte_at 3 buf) t1_msb)) (F.of_u8 8) in
      record {
        t0_out = t0_out;
        t1_out = t1_out;
        t0_degc = t0_degc;
        t1_degc = t1_degc;
        slope = F.div (F.sub t1_degc t0_degc) (F.of_i16 (sub_i16 t1_out t0_out));
      }

  unfoldable pub humidity_of : List ℕ → HumidityCalibration
  humidity_of buf =
      let h0_rh = F.div (F.of_u8 (byte_at 0 buf)) (F.of_u8 2) in
      let h1_rh = F.div (F.of_u8 (byte_at 1 buf)) (F.of_u8 2) in
      let h0_out = from_le_bytes (byte_at 6 buf) (byte_at 7 buf) in
      let h1_out = from_le_bytes (byte_at 10 buf) (byte_at 11 buf) in
      record {
        h0_out = h0_out;
        h1_out = h1_out;
        h0_rh = h0_rh;
        h1_rh = h1_rh;
        slope = F.div (F.sub h1_rh h0_rh) (F.of_i16 (sub_i16 h1_out h0_out));
      }

  unfoldable pub of_bytes : List ℕ → Calibration
  of_bytes buf = record { temperature = temperature_of buf; humidity = humidity_of buf }

  -- Sixteen bytes from 0x30 on, with the bit for auto-increment.
  unfoldable pub read : (I : I2cBus) → (address : ℕ) → I.Bus → Result Calibration I.Fault × I.Bus
  read I = read_register I 0xB0 16 of_bytes
