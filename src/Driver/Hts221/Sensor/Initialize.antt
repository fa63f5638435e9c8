-- ===== src/Driver/Hts221/Sensor/Initialize.antt =====
-- `on_initialize` on a sensor that behaves as its data sheet says, and on a bus where nothing answers.
use drogue_device.Base.{
  ℕ, zero, suc, ◌≤◌, ◌≡◌, refl, ◌∙◌, Bool, true, false, none, some, List, [], ◌∷◌, ok, err, arith,
}
use drogue_device.Driver.I2c.{I2cBus}
use drogue_device.Driver.Hts221.Register.{
  has_bits, status_of, any_available, read_status, read_tout, read_hout,
}
use drogue_device.Driver.Hts221.Calibration.{Float}
use drogue_device.Driver.Hts221.Sensor.{Sensor, drain, set_up, on_initialize}
use drogue_device.Driver.Hts221.Ctrl1
use drogue_device.Driver.Hts221.Ctrl2
use drogue_device.Driver.Hts221.Ctrl3

-- The sensor on the bus: CTRL_REG1 and CTRL_REG3 keep what is written, CTRL_REG2 takes a write (booting
-- may change any register), reads of these and of STATUS_REG change nothing, and a read of an output
-- register clears its bit of STATUS_REG.
pub record IsHts221 (I : I2cBus) (register : I.Bus → ℕ → ℕ) : Type 0 where
  pub write_ctrl1 :
      (v : ℕ) (bus : I.Bus)
      → (bus' : I.Bus) × (I.write 0x5F (0x20 ∷ v ∷ []) bus ≡ (ok tt, bus'))
        × (register bus' 0x20 ≡ v)
  pub write_ctrl2 :
      (v : ℕ) (bus : I.Bus) → (bus' : I.Bus) × (I.write 0x5F (0x21 ∷ v ∷ []) bus ≡ (ok tt, bus'))
  pub write_ctrl3 :
      (v : ℕ) (bus : I.Bus)
      → (bus' : I.Bus) × (I.write 0x5F (0x22 ∷ v ∷ []) bus ≡ (ok tt, bus'))
        × (register bus' 0x22 ≡ v)
        × (register bus' 0x20 ≡ register bus 0x20)
  pub read_one :
      (r : ℕ) (bus : I.Bus)
      → 0x20 ≤ r
      → r ≤ 0x27
      → I.write_read 0x5F (r ∷ []) 1 bus ≡ (ok (register bus r ∷ []), bus)
  pub read_humidity :
      (bus : I.Bus)
      → (buf : List ℕ) × (bus' : I.Bus) × (I.write_read 0x5F (0xA8 ∷ []) 2 bus ≡ (ok buf, bus'))
        × (has_bits (register bus' 0x27) 0b10 ≡ false)
        × (register bus' 0x20 ≡ register bus 0x20)
        × (register bus' 0x22 ≡ register bus 0x22)
  pub read_temperature :
      (bus : I.Bus)
      → (buf : List ℕ) × (bus' : I.Bus) × (I.write_read 0x5F (0xAA ∷ []) 2 bus ≡ (ok buf, bus'))
        × (has_bits (register bus' 0x27) 0b01 ≡ false)
        × (has_bits (register bus' 0x27) 0b10 ≡ has_bits (register bus 0x27) 0b10)
        × (register bus' 0x20 ≡ register bus 0x20)
        × (register bus' 0x22 ≡ register bus 0x22)

module _ (I : I2cBus) (register : I.Bus → ℕ → ℕ) where
  -- Powered, at one measurement a second, whose two bytes belong together; data-ready signals on; and
  -- no measurement left over.
  pub record IsInitialized (bus : I.Bus) : Type 0 where
    pub ctrl1 : register bus 0x20 ≡ 0b10000101
    pub ctrl3 : has_bits (register bus 0x22) 0b100 ≡ true
    pub empty : any_available (status_of (register bus 0x27)) ≡ false

module _ (I : I2cBus) (register : I.Bus → ℕ → ℕ) (d : IsHts221 I register) where
  enable-bit :
      (r : Ctrl3.Ctrl3) → has_bits (Ctrl3.to_byte (record r { enable = true })) 0b100 ≡ true
  unfolding Ctrl3.to_byte
  enable-bit r = go r.active r.mode
    where
      go :
          (a : Ctrl3.ActiveState) (m : Ctrl3.ReadyMode)
          → has_bits (Ctrl3.to_byte (record { active = a; mode = m; enable = true })) 0b100 ≡ true
      go Ctrl3.high Ctrl3.push_pull = refl
      go Ctrl3.high Ctrl3.open_drain = refl
      go Ctrl3.low Ctrl3.push_pull = refl
      go Ctrl3.low Ctrl3.open_drain = refl

  set_up-registers :
      (bus : I.Bus)
      → (register (set_up I 0x5F bus) 0x20 ≡ 0b10000101)
        × (has_bits (register (set_up I 0x5F bus) 0x22) 0b100 ≡ true)
  unfolding set_up Ctrl1.modify Ctrl2.modify Ctrl3.modify Ctrl1.to_byte
  set_up-registers bus =
      let (b, w2) =
        d.write_ctrl2 (Ctrl2.to_byte (record (Ctrl2.of_byte (register bus 0x21)) { boot = true }))
          bus in
      let (c, w1, is1) = d.write_ctrl1 0b10000101 b in
      let r3 = record (Ctrl3.of_byte (register c 0x22)) { enable = true } in
      let (e, w3, is3, same) = d.write_ctrl3 (Ctrl3.to_byte r3) c in
      (
        rw
            (
              set_up,
              d.read_one 0x21 bus (omega arith) (omega arith),
              w2,
              d.read_one 0x20 b (omega arith) (omega arith),
              w1,
              d.read_one 0x22 c (omega arith) (omega arith),
              w3,
            )
            (same ∙ is1),
        rw
            (
              set_up,
              d.read_one 0x21 bus (omega arith) (omega arith),
              w2,
              d.read_one 0x20 b (omega arith) (omega arith),
              w1,
              d.read_one 0x22 c (omega arith) (omega arith),
              w3,
              is3,
            )
            (enable-bit (Ctrl3.of_byte (register c 0x22))),
      )

  -- One round of reads empties the sensor.
  Emptied : I.Bus → I.Bus → Type 0
  Emptied bus bus' =
      (any_available (status_of (register bus' 0x27)) ≡ false)
      × (register bus' 0x20 ≡ register bus 0x20)
      × (register bus' 0x22 ≡ register bus 0x22)

  reads-Emptied : (bus : I.Bus) → Emptied bus (read_tout I 0x5F (read_hout I 0x5F bus).1).1
  unfolding Emptied read_tout read_hout any_available status_of
  reads-Emptied bus =
      let (hbuf, b, eh, h, h20, h22) = d.read_humidity bus in
      let (tbuf, c, et, t, kept, t20, t22) = d.read_temperature b in
      rw (eh, et) (rw (t, kept, h) refl, t20 ∙ h20, t22 ∙ h22)

  -- With fuel for two rounds, the loop ends.
  drain-Emptied :
      (fuel : ℕ) (bus : I.Bus)
      → 2 ≤ fuel
      → (bus' : I.Bus) × (drain I fuel 0x5F bus ≡ some bus') × Emptied bus bus'
  unfolding drain Emptied read_status
  drain-Emptied zero bus h = absurd (omega arith)
  drain-Emptied (suc zero) bus h = absurd (omega arith)
  drain-Emptied (suc (suc fuel)) bus h =
      by_status (any_available (status_of (register bus 0x27))) refl
    where
      next : I.Bus
      next = (read_tout I 0x5F (read_hout I 0x5F bus).1).1

      by_status :
          (b : Bool)
          → any_available (status_of (register bus 0x27)) ≡ b
          → (bus' : I.Bus) × (drain I (suc (suc fuel)) 0x5F bus ≡ some bus') × Emptied bus bus'
      by_status false e =
          (bus, rw (d.read_one 0x27 bus (omega arith) (omega arith), e) refl, (e, refl, refl))
      by_status true e = (
        next,
        rw
            (
              d.read_one 0x27 bus (omega arith) (omega arith),
              e,
              d.read_one 0x27 next (omega arith) (omega arith),
              (reads-Emptied bus).0,
            )
            refl,
        reads-Emptied bus,
      )

  module _ (F : Float) where
    -- On a bus whose sensor keeps what is written to CTRL_REG1 and CTRL_REG3, and clears the bit
    -- of STATUS_REG of an output register that is read, the initialization ends within two rounds
    -- of its loop: CTRL_REG1 is 0x85 (power, 1 Hz, bit 2), data-ready signals are enabled in
    -- CTRL_REG3, and no measurement is available.
    pub on_initialize-IsInitialized :
        (fuel : ℕ) (s : Sensor F) (bus : I.Bus)
        → 2 ≤ fuel
        → s.i2c ≡ true
        → s.address ≡ 0x5F
        → (bus' : I.Bus) × (on_initialize F I fuel s bus ≡ some bus')
          × IsInitialized I register bus'
    unfolding on_initialize Emptied
    on_initialize-IsInitialized fuel s bus h bound address =
        let (bus', e, (empty, same1, same3)) = drain-Emptied fuel (set_up I 0x5F bus) h in
        let (ctrl1, ctrl3) = set_up-registers bus in
        (
          bus',
          rw (bound, address) e,
          record { ctrl1 = same1 ∙ ctrl1; ctrl3 = rw same3 ctrl3; empty = empty },
        )

module _ (F : Float) (I : I2cBus)
    (silent : (r : ℕ) (room : ℕ) (bus : I.Bus)
      → (e : I.Fault) × (I.write_read 0x5F (r ∷ []) room bus ≡ (err e, bus))) where
  drain-silent : (fuel : ℕ) (bus : I.Bus) → drain I fuel 0x5F bus ≡ none
  unfolding drain read_status read_tout read_hout
  drain-silent zero bus = refl
  drain-silent (suc fuel) bus =
      let (e, failed) = silent 0x27 1 bus in
      let (eh, no_humidity) = silent 0xA8 2 bus in
      let (et, no_temperature) = silent 0xAA 2 bus in
      rw (failed, no_humidity, no_temperature) (drain-silent fuel bus)

  -- On a bus where every read from the sensor fails and leaves the bus as it is, the
  -- initialization of a bound sensor does not end, whatever the fuel.
  pub on_initialize-never :
      (fuel : ℕ) (s : Sensor F) (bus : I.Bus)
      → s.i2c ≡ true
      → s.address ≡ 0x5F
      → on_initialize F I fuel s bus ≡ none
  unfolding on_initialize
  on_initialize-never fuel s bus bound address =
      rw (bound, address) (drain-silent fuel (set_up I 0x5F bus))
