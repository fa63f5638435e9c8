-- ===== src/Driver/Blinker/Phases.antt =====
-- The LED goes on and off in turn, at every interrupt of the timer.
use drogue_device.Base.{
  ℕ, zero, suc, ◌≡◌, refl, Bool, true, false, some, ◌∷◌, Outcome, done, panic, ◌>>=◌, arith,
}
use drogue_device.Driver.Cell.{cell, borrow, borrow_mut}
use drogue_device.Driver.Timer.{
  new, on_interrupt, on_notify, expire_delays, expire_schedules, first_free, put, start_shorter,
  remaining, free_slots, HalTimer,
}
use drogue_device.Driver.Blinker.{
  State, on, off, System, on_start, on_state, handle, handle_all, deliver, tick, ticks, start_all,
}

abbrev pub lit_before : State → Bool
lit_before on = false
lit_before off = true

abbrev pub other : State → State
other on = off
other off = on

abbrev pub after : ℕ → State → State
after zero state = state
after (suc n) state = after n (other state)

zero_left : (delay : ℕ) → remaining delay delay ≡ 0
zero_left delay = ground arith

module _ (H : HalTimer) (delay : ℕ) where
  -- The blinker waits for its next event.
  abbrev pub phase : State → H.Timer → System H
  phase state t = record {
    blinker = record { delay = delay };
    timer = record {
      current_deadline = cell (some delay);
      delay_deadlines = cell (free_slots 16);
      schedule_deadlines =
          cell (some (record { expiration = delay; event = state }) ∷ free_slots 15);
    };
    hardware = t;
    lit = lit_before state;
  }

  -- At each of `n` interrupts the flag of the hardware is cleared and it is started again.
  abbrev pub restarts : ℕ → H.Timer → Outcome H.Timer
  restarts zero t = done t
  restarts (suc n) t = H.start delay (H.clear_update_interrupt_flag t) >>= restarts n

  -- The phase, or a panic if a start of the hardware panics.
  abbrev pub reached : State → Outcome H.Timer → Outcome (System H)
  reached state panic = panic
  reached state (done t) = done (phase state t)

  tick-phase :
      (state : State) (t : H.Timer) (o : Outcome H.Timer)
      → H.start delay (H.clear_update_interrupt_flag t) ≡ o
      → tick H (phase state t) ≡ reached (other state) o
  unfolding tick deliver handle_all handle on_state on_interrupt on_notify expire_delays
      expire_schedules first_free put start_shorter start_all borrow borrow_mut
  tick-phase on t panic e = rw (zero_left delay, e) refl
  tick-phase on t (done t') e = rw (zero_left delay, e) refl
  tick-phase off t panic e = rw (zero_left delay, e) refl
  tick-phase off t (done t') e = rw (zero_left delay, e) refl

  ticks-reached :
      (n : ℕ) (state : State) (o : Outcome H.Timer)
      → reached state o >>= ticks H n ≡ reached (after n state) (o >>= restarts n)
  unfolding ticks
  ticks-reached n state panic = refl
  ticks-reached zero state (done t) = refl
  ticks-reached (suc n) state (done t) =
      rw (tick-phase state t _ refl)
        (ticks-reached n (other state) (H.start delay (H.clear_update_interrupt_flag t)))

  start-reached :
      (t : H.Timer) (o : Outcome H.Timer)
      → H.start delay t ≡ o
      → handle_all H
          (on_start (record { delay = delay }))
          (record { blinker = record { delay = delay }; timer = new; hardware = t; lit = false })
        ≡ reached on o
  unfolding handle_all handle on_start on_notify new first_free put start_shorter start_all borrow
      borrow_mut
  start-reached t panic e = rw e refl
  start-reached t (done t') e = rw e refl

  -- A blinker with any delay, started on a new timer with its LED off and then run through n
  -- interrupts of the timer, starts the hardware timer n + 1 times, each time with the delay, and
  -- clears its flag before each start but the first. It panics if one of these starts panics.
  -- Otherwise the LED is lit just when n is odd, the next event in the only slot taken is the
  -- opposite one, the deadline of the timer is the delay, and the hardware is as the last start
  -- has left it.
  pub ticks-on_start :
      (n : ℕ) (t : H.Timer)
      → (handle_all H
            (on_start (record { delay = delay }))
            (record { blinker = record { delay = delay }; timer = new; hardware = t; lit = false })
          >>= ticks H n)
        ≡ reached (after n on) (H.start delay t >>= restarts n)
  ticks-on_start n t =
      rw (start-reached t (H.start delay t) refl) (ticks-reached n on (H.start delay t))
