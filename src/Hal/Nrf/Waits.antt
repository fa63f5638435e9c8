-- ===== src/Hal/Nrf/Waits.antt =====
-- The loops that wait for the peripheral end where it answers.
use drogue_device.Base.{
  ℕ, zero, suc, ◌≤◌, ◌<◌, ◌≡◌, refl, Bool, true, false, some, Bool-cases, inl, inr, arith,
}
use drogue_device.Hal.Nrf.{
  Registers, Task, Chip, wait_for, stop_write, cancel_write, cancel_read, finish_read, reset_tx,
}

module _ (C : Chip) where
  -- What the peripheral does in `k` steps of its own.
  abbrev pub ticks : ℕ → Registers → Registers
  ticks zero r = r
  ticks (suc k) r = ticks k (C.tick r)

  -- The peripheral raises the event of each task that ends something within `n` steps.
  pub record AnswersWithin (n : ℕ) : Type 0 where
    pub stoptx :
        (r : Registers) → (k : ℕ) × (k < n) × ((ticks k (C.trigger Task.stoptx r)).txstopped ≡ true)
    pub stoprx :
        (r : Registers) → (k : ℕ) × (k < n) × ((ticks k (C.trigger Task.stoprx r)).rxto ≡ true)
    pub flushrx :
        (r : Registers) → (k : ℕ) × (k < n) × ((ticks k (C.trigger Task.flushrx r)).endrx ≡ true)

  pub wait_for-ticks :
      (event : Registers → Bool) (fuel k : ℕ) (r : Registers)
      → k < fuel
      → event (ticks k r) ≡ true
      → (s : Registers) × (wait_for C event fuel r ≡ some s) × (event s ≡ true)
  unfolding wait_for
  wait_for-ticks event zero k r h e = absurd (omega arith)
  wait_for-ticks event (suc fuel) zero r h e = (r, rw e refl, e)
  wait_for-ticks event (suc fuel) (suc k) r h e =
      let (s, found, raised) = wait_for-ticks event fuel k (C.tick r) (omega arith) e in
      elim (Bool-cases (event r)) [
        | inl now ↦ (r, rw now refl, now)
        | inr later ↦ (s, rw later found, raised)
      ]

  pub stop_write-returns :
      (n fuel : ℕ) (r : Registers)
      → AnswersWithin n
      → n ≤ fuel
      → (s : Registers) × (stop_write C fuel r ≡ some s) × (s.endtx ≡ false) × (s.txstopped ≡ false)
  unfolding stop_write
  stop_write-returns n fuel r answers h =
      let (k, soon, raised) = answers.stoptx r in
      let (s, e, stopped) =
        wait_for-ticks (λ t. t.txstopped) fuel k (C.trigger Task.stoptx r) (omega arith) raised in
      (reset_tx C s, rw e refl, refl, refl)

  -- On a peripheral that raises TXSTOPPED after STOPTX, RXTO after STOPRX and ENDRX after FLUSHRX
  -- within n steps, with fuel n, cancel_write ends with ENDTX and TXSTOPPED clear, and cancel_read
  -- ends with ENDRX set, which finish_read then clears.
  pub cancel-returns :
      (n fuel : ℕ) (r : Registers)
      → AnswersWithin n
      → n ≤ fuel
      → ((s : Registers) × (cancel_write C fuel r ≡ some s)
          × (s.endtx ≡ false)
          × (s.txstopped ≡ false))
        × ((s : Registers) × (cancel_read C fuel r ≡ some s)
            × (s.endrx ≡ true)
            × ((finish_read C s).1.endrx ≡ false))
  unfolding cancel_write cancel_read finish_read
  cancel-returns n fuel r answers h = (written, read)
    where
      written :
          (s : Registers) × (cancel_write C fuel r ≡ some s)
          × (s.endtx ≡ false)
          × (s.txstopped ≡ false)
      written =
          let (s, e, sent, stopped) = stop_write-returns n fuel r answers h in
          (reset_tx C s, rw e refl, refl, refl)

      read :
          (s : Registers) × (cancel_read C fuel r ≡ some s)
          × (s.endrx ≡ true)
          × ((finish_read C s).1.endrx ≡ false)
      read =
          let (k, soon, raised) = answers.stoprx r in
          let (t, e, timed_out) =
            wait_for-ticks (λ t. t.rxto) fuel k (C.trigger Task.stoprx r) (omega arith) raised in
          let (j, soon', flushed) = answers.flushrx (record t { rxto = false }) in
          let (s, e', ended) =
            wait_for-ticks (λ t. t.endrx) fuel j
              (C.trigger Task.flushrx (record t { rxto = false })) (omega arith) flushed in
          (s, rw e e', ended, refl)
