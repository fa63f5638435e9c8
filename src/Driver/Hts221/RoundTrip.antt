-- ===== src/Driver/Hts221/RoundTrip.antt =====
-- The control registers as bytes and back.
use drogue_device.Base.{
  ℕ, ◌<◌, ◌≡◌, refl, Bool, true, false, ◌&&◌, ◌==◌, if◌then◌else◌, bit_and, bit_or, arith,
}
use drogue_device.Base.Bits.{passes_below, passes-lt}
use drogue_device.Driver.Hts221.Register.{has_bits}
use drogue_device.Driver.Hts221.Ctrl1.{
  Ctrl1, power_down, active, continuous, msb_lsb_reading, one_shot, hz1, hz7, hz12p5,
}
use drogue_device.Driver.Hts221.Ctrl2.{Ctrl2}
use drogue_device.Driver.Hts221.Ctrl3.{Ctrl3, push_pull, open_drain, high, low}
use drogue_device.Driver.Hts221.Ctrl1
use drogue_device.Driver.Hts221.Ctrl2
use drogue_device.Driver.Hts221.Ctrl3

abbrev kept : ℕ → Bool
kept b =
    (Ctrl1.to_byte (Ctrl1.of_byte b)
      == bit_or (bit_and b 0b10000011) (if has_bits b 0x40 then 0b100 else 0))
    && (Ctrl2.to_byte (Ctrl2.of_byte b) == bit_and b 0b10000011)
    && (Ctrl3.to_byte (Ctrl3.of_byte b) == bit_and b 0b11000100)

kept_all : passes_below kept 256 ≡ true
unfolding passes_below Ctrl1.of_byte Ctrl1.to_byte Ctrl2.of_byte Ctrl2.to_byte Ctrl3.of_byte
    Ctrl3.to_byte
kept_all = refl

-- The bits of a byte that survive a read and a write of a control register.
encode-decode :
    (b : ℕ)
    → b < 256
    → (Ctrl1.to_byte (Ctrl1.of_byte b)
        ≡ bit_or (bit_and b 0b10000011) (if has_bits b 0x40 then 0b100 else 0))
      × (Ctrl2.to_byte (Ctrl2.of_byte b) ≡ bit_and b 0b10000011)
      × (Ctrl3.to_byte (Ctrl3.of_byte b) ≡ bit_and b 0b11000100)
encode-decode b h = split _ _ _ _ _ _ (passes-lt kept 256 b kept_all h)
  where
    split :
        (a a' c c' d d' : ℕ)
        → ((a == a') && (c == c') && (d == d')) ≡ true
        → (a ≡ a') × (c ≡ c') × (d ≡ d')
    split a a' c c' d d' e = ground arith

ctrl1-decode :
    (r : Ctrl1) → Ctrl1.of_byte (Ctrl1.to_byte r) ≡ record r { block_data_update = continuous }
unfolding Ctrl1.of_byte Ctrl1.to_byte
ctrl1-decode r = go r.power r.block_data_update r.output_data_rate
  where
    go :
        (p : Ctrl1.Power) (u : Ctrl1.BlockDataUpdate) (o : Ctrl1.OutputDataRate)
        → Ctrl1.of_byte
            (Ctrl1.to_byte (record { power = p; block_data_update = u; output_data_rate = o }))
          ≡ record { power = p; block_data_update = continuous; output_data_rate = o }
    go power_down continuous one_shot = refl
    go power_down continuous hz1 = refl
    go power_down continuous hz7 = refl
    go power_down continuous hz12p5 = refl
    go power_down msb_lsb_reading one_shot = refl
    go power_down msb_lsb_reading hz1 = refl
    go power_down msb_lsb_reading hz7 = refl
    go power_down msb_lsb_reading hz12p5 = refl
    go active continuous one_shot = refl
    go active continuous hz1 = refl
    go active continuous hz7 = refl
    go active continuous hz12p5 = refl
    go active msb_lsb_reading one_shot = refl
    go active msb_lsb_reading hz1 = refl
    go active msb_lsb_reading hz7 = refl
    go active msb_lsb_reading hz12p5 = refl

ctrl2-decode : (r : Ctrl2) → Ctrl2.of_byte (Ctrl2.to_byte r) ≡ r
unfolding Ctrl2.of_byte Ctrl2.to_byte
ctrl2-decode r = go r.boot r.heater r.enable_one_shot
  where
    go :
        (b h o : Bool)
        → Ctrl2.of_byte (Ctrl2.to_byte (record { boot = b; heater = h; enable_one_shot = o }))
          ≡ record { boot = b; heater = h; enable_one_shot = o }
    go true true true = refl
    go true true false = refl
    go true false true = refl
    go true false false = refl
    go false true true = refl
    go false true false = refl
    go false false true = refl
    go false false false = refl

ctrl3-decode : (r : Ctrl3) → Ctrl3.of_byte (Ctrl3.to_byte r) ≡ r
unfolding Ctrl3.of_byte Ctrl3.to_byte
ctrl3-decode r = go r.active r.mode r.enable
  where
    go :
        (a : Ctrl3.ActiveState) (m : Ctrl3.ReadyMode) (e : Bool)
        → Ctrl3.of_byte (Ctrl3.to_byte (record { active = a; mode = m; enable = e }))
          ≡ record { active = a; mode = m; enable = e }
    go high push_pull true = refl
    go high push_pull false = refl
    go high open_drain true = refl
    go high open_drain false = refl
    go low push_pull true = refl
    go low push_pull false = refl
    go low open_drain true = refl
    go low open_drain false = refl

-- A value of CTRL_REG2 or CTRL_REG3 that is written as a byte and read back is the same; one of
-- CTRL_REG1 keeps power and data rate and always comes back with continuous update. A byte of
-- CTRL_REG2 or CTRL_REG3 that is read and written back keeps just the bits of its fields (0x83 and
-- 0xc4).
pub decode-encode :
    (b : ℕ) (r1 : Ctrl1) (r2 : Ctrl2) (r3 : Ctrl3)
    → b < 256
    → (Ctrl1.of_byte (Ctrl1.to_byte r1) ≡ record r1 { block_data_update = continuous })
      × (Ctrl2.of_byte (Ctrl2.to_byte r2) ≡ r2)
      × (Ctrl3.of_byte (Ctrl3.to_byte r3) ≡ r3)
      × (Ctrl2.to_byte (Ctrl2.of_byte b) ≡ bit_and b 0b10000011)
      × (Ctrl3.to_byte (Ctrl3.of_byte b) ≡ bit_and b 0b11000100)
decode-encode b r1 r2 r3 h =
    let (one, two, three) = encode-decode b h in
    (ctrl1-decode r1, ctrl2-decode r2, ctrl3-decode r3, two, three)
