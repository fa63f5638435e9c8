-- ===== src/Driver/Uart/Transfer.antt =====
-- A transfer from its start to its end.
use drogue_device.Base.{ℕ, ◌≡◌, refl, true, false, List, [], ◌∷◌}
use drogue_device.Driver.Uart.{
  HalUart, Uart, State, defer, Result, ok, write, read, poll_tx, poll_rx, on_interrupt,
}
use drogue_device.Sync.Signal.{poll_wait, signal, reset}
use drogue_device.Sync.Signal

module _ (U : HalUart) where
  -- A write that starts, is polled, and then interrupted, and polled again.
  abbrev pub sent : List ℕ → ℕ → Uart U → Uart U
  sent tx_buffer waker u = (poll_tx U defer waker (write U tx_buffer u).1).1

  -- From the ready state, when the hardware accepts a write and at the next interrupt reports it
  -- done with some result: write gives a deferred future, its first poll is pending, the interrupt
  -- wakes the task that polled, and the next poll returns the result and makes the peripheral
  -- ready with an empty signal.
  pub write-poll_tx :
      (tx_buffer : List ℕ) (waker : ℕ) (u : Uart U) (started interrupted finished : U.Hardware)
      (result : Result (Unit {0}))
      → u.tx_state ≡ State.ready
      → U.start_write tx_buffer u.hardware ≡ (ok tt, started)
      → U.process_interrupts started ≡ (true, false, interrupted)
      → U.finish_write interrupted ≡ (result, finished)
      → ((write U tx_buffer u).0 ≡ defer)
        × ((poll_tx U defer waker (write U tx_buffer u).1).0 ≡ Signal.Poll.pending)
        × ((on_interrupt U (sent tx_buffer waker u)).1 ≡ waker ∷ [])
        × (poll_tx U defer waker (on_interrupt U (sent tx_buffer waker u)).0 ≡ (
          Signal.Poll.ready result,
          record u { hardware = finished; tx_state = State.ready; tx_done = Signal.State.empty },
        ))
  unfolding write poll_tx on_interrupt poll_wait signal reset
  write-poll_tx tx_buffer waker u started interrupted finished result h s p f =
      (rw (h, s) refl, rw h refl, rw (h, s, p) refl, rw (h, s, p, f) refl)

  abbrev pub received : ℕ → ℕ → Uart U → Uart U
  received room waker u = (poll_rx U defer waker (read U room u).1).1

  -- From the ready state, when the hardware accepts a read and at the next interrupt reports it
  -- done with some result: read gives a deferred future, its first poll is pending, the interrupt
  -- wakes the task that polled, and the next poll returns the result and makes the peripheral
  -- ready with an empty signal.
  pub read-poll_rx :
      (room : ℕ) (waker : ℕ) (u : Uart U) (started interrupted finished : U.Hardware)
      (result : Result ℕ)
      → u.rx_state ≡ State.ready
      → U.start_read room u.hardware ≡ (ok tt, started)
      → U.process_interrupts started ≡ (false, true, interrupted)
      → U.finish_read interrupted ≡ (result, finished)
      → ((read U room u).0 ≡ defer)
        × ((poll_rx U defer waker (read U room u).1).0 ≡ Signal.Poll.pending)
        × ((on_interrupt U (received room waker u)).1 ≡ waker ∷ [])
        × (poll_rx U defer waker (on_interrupt U (received room waker u)).0 ≡ (
          Signal.Poll.ready result,
          record u { hardware = finished; rx_state = State.ready; rx_done = Signal.State.empty },
        ))
  unfolding read poll_rx on_interrupt poll_wait signal reset
  read-poll_rx room waker u started interrupted finished result h s p f =
      (rw (h, s) refl, rw h refl, rw (h, s, p) refl, rw (h, s, p, f) refl)
