-- ===== src/Driver/Uart/Stuck.antt =====
-- A transfer that could not be started, or whose future was dropped, is never over.
use drogue_device.Base.{ℕ, ◌≡◌, refl, ◌∙◌, Bool, true, false, List, [], ◌∷◌, ◌++◌, arith}
use drogue_device.Driver.Uart.{
  HalUart, Uart, State, in_progress, Future, defer, error, tx_in_progress, write, read, poll_rx,
  drop_rx, drop_tx, on_interrupt, signal_tx, signal_rx, write_in, read_in, Result, err, Error,
  waited_rx, poll_rx_in, cancel_rx_in, cancel_tx_in,
}
use drogue_device.Sync.Signal.{poll_wait}
use drogue_device.Sync.Signal

-- What a client may do while it has no future of a write: a future of a read is there as long as it is
-- not dropped.
pub data Op : Type 0 where
  writes : List ℕ → Op
  reads : (room : ℕ) → Op
  polls : Future → (waker : ℕ) → Op
  drops : Future → Op
  interrupts : Op

module _ (U : HalUart) where
  -- The state after a step, and the future of a write.
  abbrev pub step : Op → Uart U → List Future × Uart U
  step (writes tx_buffer) u = let (f, u') = write U tx_buffer u in (f ∷ [], u')
  step (reads room) u = ([], (read U room u).1)
  step (polls f waker) u = ([], (poll_rx U f waker u).1)
  step (drops f) u = ([], drop_rx U f u)
  step interrupts u = ([], (on_interrupt U u).0)

  abbrev pub run : List Op → Uart U → List Future × Uart U
  run [] u = ([], u)
  run (op ∷ ops) u = let (fs, u') = step op u in let (more, u'') = run ops u' in (fs ++ more, u'')

  abbrev pub AllRefused : List Future → Type 0
  AllRefused [] = Unit {0}
  AllRefused (f ∷ fs) = (f ≡ error tx_in_progress) × AllRefused fs

  read_in-keeps :
      (state : State) (room : ℕ) (u : Uart U) → (read_in U state room u).1.tx_state ≡ u.tx_state
  read_in-keeps State.ready room u = refl
  read_in-keeps State.in_progress room u = refl

  waited_rx-keeps :
      (u : Uart U) (r : Signal.State (Result ℕ) × Signal.Poll (Result ℕ))
      → (waited_rx U u r).1.tx_state ≡ u.tx_state
  waited_rx-keeps u (rx_done, Signal.Poll.ready result) = refl
  waited_rx-keeps u (rx_done, Signal.Poll.pending) = refl

  poll_rx_in-keeps :
      (state : State) (waker : ℕ) (u : Uart U)
      → (poll_rx_in U state waker u).1.tx_state ≡ u.tx_state
  poll_rx_in-keeps State.ready waker u = refl
  poll_rx_in-keeps State.in_progress waker u = waited_rx-keeps u (poll_wait waker u.rx_done)

  cancel_rx_in-keeps : (state : State) (u : Uart U) → (cancel_rx_in U state u).tx_state ≡ u.tx_state
  cancel_rx_in-keeps State.ready u = refl
  cancel_rx_in-keeps State.in_progress u = refl

  signal_tx-keeps : (b : Bool) (u : Uart U) → (signal_tx U b u).0.tx_state ≡ u.tx_state
  signal_tx-keeps true u = refl
  signal_tx-keeps false u = refl

  signal_rx-keeps : (b : Bool) (u : Uart U) → (signal_rx U b u).0.tx_state ≡ u.tx_state
  signal_rx-keeps true u = refl
  signal_rx-keeps false u = refl

  step-keeps :
      (op : Op) (u : Uart U)
      → u.tx_state ≡ in_progress
      → ((step op u).1.tx_state ≡ in_progress) × AllRefused (step op u).0
  unfolding write read poll_rx drop_rx on_interrupt
  step-keeps (writes tx_buffer) u h = write_in-keeps u.tx_state h
    where
      write_in-keeps :
          (state : State)
          → state ≡ in_progress
          → ((write_in U state tx_buffer u).1.tx_state ≡ in_progress)
            × AllRefused ((write_in U state tx_buffer u).0 ∷ [])
      write_in-keeps State.in_progress e = (h, (refl, tt))
      write_in-keeps State.ready e = ground arith
  step-keeps (reads room) u h = (read_in-keeps u.rx_state room u ∙ h, tt)
  step-keeps (polls defer waker) u h = (poll_rx_in-keeps u.rx_state waker u ∙ h, tt)
  step-keeps (polls (error e) waker) u h = (h, tt)
  step-keeps (drops defer) u h = (cancel_rx_in-keeps u.rx_state u ∙ h, tt)
  step-keeps (drops (error e)) u h = (h, tt)
  step-keeps interrupts u h =
      let (tx, rx, hardware) = U.process_interrupts u.hardware in
      let v = record u { hardware = hardware } in
      (signal_rx-keeps rx (signal_tx U tx v).0 ∙ signal_tx-keeps tx v ∙ h, tt)

  AllRefused-append : (fs gs : List Future) → AllRefused fs → AllRefused gs → AllRefused (fs ++ gs)
  AllRefused-append [] gs a b = b
  AllRefused-append (f ∷ fs) gs a b = (a.0, AllRefused-append fs gs a.1 b)

  run-keeps : (ops : List Op) (u : Uart U) → u.tx_state ≡ in_progress → AllRefused (run ops u).0
  run-keeps [] u h = tt
  run-keeps (op ∷ ops) u h =
      let (keeps, refused) = step-keeps op u h in
      AllRefused-append (step op u).0 (run ops (step op u).1).0 refused
        (run-keeps ops (step op u).1 keeps)

  cancel_tx_in-keeps : (state : State) (u : Uart U) → (cancel_tx_in U state u).tx_state ≡ u.tx_state
  cancel_tx_in-keeps State.ready u = refl
  cancel_tx_in-keeps State.in_progress u = refl

  -- When the hardware refuses a write from the ready state, the future holds its error; after that
  -- every write is refused with TxInProgress, whatever sequence of writes, reads, polls and drops
  -- of read futures and interrupts follows. So it is when the future of a write in progress is
  -- dropped: the hardware is told to cancel it, and every later write is refused.
  pub write-drop_tx :
      (tx_buffer : List ℕ) (u v : Uart U) (e : Error) (hardware : U.Hardware) (ops : List Op)
      → u.tx_state ≡ State.ready
      → U.start_write tx_buffer u.hardware ≡ (err e, hardware)
      → v.tx_state ≡ in_progress
      → ((write U tx_buffer u).0 ≡ error e)
        × AllRefused (run ops (write U tx_buffer u).1).0
        × ((drop_tx U defer v).hardware ≡ U.cancel_write v.hardware)
        × AllRefused (run ops (drop_tx U defer v)).0
  unfolding write drop_tx
  write-drop_tx tx_buffer u v e hardware ops h failed dropped = (
    rw (h, failed) refl,
    run-keeps ops (write_in U u.tx_state tx_buffer u).1 (rw h refl),
    rw dropped refl,
    run-keeps ops (cancel_tx_in U v.tx_state v) (cancel_tx_in-keeps v.tx_state v ∙ dropped),
  )
