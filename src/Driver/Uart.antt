-- ===== src/Driver/Uart.antt =====
-- src/driver/uart/mod.rs: `UartPeripheral`, its two futures, and `UartInterrupt`. The hardware is the
-- interface `HalUart` (src/hal/uart/mod.rs); the two halves signal each other through `Signal`.
pub mod Transfer
pub mod Stuck
use drogue_device.Base.{
  ℕ, Bool, true, false, if◌then◌else◌, Option, none, some, List, [], ◌∷◌, ◌++◌,
}
use drogue_device.Sync.Signal.{poll_wait}
use drogue_device.Sync.Signal

pub data Error : Type 0 where
  tx_in_progress rx_in_progress tx_buffer_too_small rx_buffer_too_small tx_buffer_too_long
        rx_buffer_too_long transmit receive buffer_not_in_ram :
      Error
  timeout : ℕ → Error

pub data Result (A : Type 0) : Type 0 where
  ok : A → Result A
  err : Error → Result A

-- The trait `Uart`. A read leaves its bytes in the caller's buffer; here it has the buffer's length.
pub record HalUart : Type 1 where
  pub Hardware : Type 0
  pub start_write : List ℕ → Hardware → Result (Unit {0}) × Hardware
  pub finish_write : Hardware → Result (Unit {0}) × Hardware
  pub cancel_write : Hardware → Hardware
  pub start_read : ℕ → Hardware → Result (Unit {0}) × Hardware
  pub finish_read : Hardware → Result ℕ × Hardware
  pub cancel_read : Hardware → Hardware
  pub process_interrupts : Hardware → Bool × Bool × Hardware

pub data State : Type 0 where
  ready in_progress : State

-- The peripheral's own state, with the hardware and the signals that it shares with the interrupt.
pub record Uart (U : HalUart) : Type 0 where
  pub tx_state : State
  pub rx_state : State
  pub hardware : U.Hardware
  pub tx_done : Signal.State (Result (Unit {0}))
  pub rx_done : Signal.State (Result ℕ)

-- `TxFuture` and `RxFuture`; a deferred one borrows the peripheral.
pub data Future : Type 0 where
  defer : Future
  error : Error → Future

abbrev pub future_of : Result (Unit {0}) → Future
future_of (ok done) = defer
future_of (err e) = error e

module _ (U : HalUart) where
  unfoldable pub new : U.Hardware → Uart U
  new hardware = record {
    tx_state = ready;
    rx_state = ready;
    hardware = hardware;
    tx_done = Signal.State.empty;
    rx_done = Signal.State.empty;
  }

  abbrev pub started_tx : Uart U → Result (Unit {0}) × U.Hardware → Future × Uart U
  started_tx u (result, hardware) = (
    future_of result,
    record u { tx_state = in_progress; tx_done = Signal.reset u.tx_done; hardware = hardware },
  )

  abbrev pub write_in : State → List ℕ → Uart U → Future × Uart U
  write_in ready tx_buffer u = started_tx u (U.start_write tx_buffer u.hardware)
  write_in in_progress tx_buffer u = (error tx_in_progress, u)

  -- `UartPeripheral::write`
  unfoldable pub write : List ℕ → Uart U → Future × Uart U
  write tx_buffer u = write_in u.tx_state tx_buffer u

  abbrev pub started_rx : Uart U → Result (Unit {0}) × U.Hardware → Future × Uart U
  started_rx u (result, hardware) = (
    future_of result,
    record u { rx_state = in_progress; rx_done = Signal.reset u.rx_done; hardware = hardware },
  )

  abbrev pub read_in : State → ℕ → Uart U → Future × Uart U
  read_in ready room u = started_rx u (U.start_read room u.hardware)
  read_in in_progress room u = (error rx_in_progress, u)

  -- `UartPeripheral::read`
  unfoldable pub read : (room : ℕ) → Uart U → Future × Uart U
  read room u = read_in u.rx_state room u

  abbrev pub waited_tx :
      Uart U
      → Signal.State (Result (Unit {0})) × Signal.Poll (Result (Unit {0}))
      → Signal.Poll (Result (Unit {0})) × Uart U
  waited_tx u (tx_done, Signal.Poll.ready result) =
      (Signal.Poll.ready result, record u { tx_state = ready; tx_done = tx_done })
  waited_tx u (tx_done, Signal.Poll.pending) = (Signal.Poll.pending, record u { tx_done = tx_done })

  abbrev pub poll_tx_in : State → ℕ → Uart U → Signal.Poll (Result (Unit {0})) × Uart U
  poll_tx_in in_progress waker u = waited_tx u (poll_wait waker u.tx_done)
  poll_tx_in ready waker u = (Signal.Poll.pending, u)

  -- `TxFuture::poll`
  unfoldable pub poll_tx : Future → ℕ → Uart U → Signal.Poll (Result (Unit {0})) × Uart U
  poll_tx defer waker u = poll_tx_in u.tx_state waker u
  poll_tx (error e) waker u = (Signal.Poll.ready (err e), u)

  abbrev pub waited_rx :
      Uart U → Signal.State (Result ℕ) × Signal.Poll (Result ℕ) → Signal.Poll (Result ℕ) × Uart U
  waited_rx u (rx_done, Signal.Poll.ready result) =
      (Signal.Poll.ready result, record u { rx_state = ready; rx_done = rx_done })
  waited_rx u (rx_done, Signal.Poll.pending) = (Signal.Poll.pending, record u { rx_done = rx_done })

  abbrev pub poll_rx_in : State → ℕ → Uart U → Signal.Poll (Result ℕ) × Uart U
  poll_rx_in in_progress waker u = waited_rx u (poll_wait waker u.rx_done)
  poll_rx_in ready waker u = (Signal.Poll.pending, u)

  -- `RxFuture::poll`
  unfoldable pub poll_rx : Future → ℕ → Uart U → Signal.Poll (Result ℕ) × Uart U
  poll_rx defer waker u = poll_rx_in u.rx_state waker u
  poll_rx (error e) waker u = (Signal.Poll.ready (err e), u)

  abbrev pub cancel_tx_in : State → Uart U → Uart U
  cancel_tx_in in_progress u = record u { hardware = U.cancel_write u.hardware }
  cancel_tx_in ready u = u

  -- `TxFuture::drop`
  unfoldable pub drop_tx : Future → Uart U → Uart U
  drop_tx defer u = cancel_tx_in u.tx_state u
  drop_tx (error e) u = u

  abbrev pub cancel_rx_in : State → Uart U → Uart U
  cancel_rx_in in_progress u = record u { hardware = U.cancel_read u.hardware }
  cancel_rx_in ready u = u

  -- `RxFuture::drop`
  unfoldable pub drop_rx : Future → Uart U → Uart U
  drop_rx defer u = cancel_rx_in u.rx_state u
  drop_rx (error e) u = u

  abbrev pub woken : Option ℕ → List ℕ
  woken none = []
  woken (some waker) = waker ∷ []

  abbrev pub signal_tx : Bool → Uart U → Uart U × List ℕ
  signal_tx false u = (u, [])
  signal_tx true u =
      let (result, hardware) = U.finish_write u.hardware in
      let (tx_done, waker) = Signal.signal result u.tx_done in
      (record u { hardware = hardware; tx_done = tx_done }, woken waker)

  abbrev pub signal_rx : Bool → Uart U → Uart U × List ℕ
  signal_rx false u = (u, [])
  signal_rx true u =
      let (result, hardware) = U.finish_read u.hardware in
      let (rx_done, waker) = Signal.signal result u.rx_done in
      (record u { hardware = hardware; rx_done = rx_done }, woken waker)

  -- `UartInterrupt::on_interrupt`, with the tasks that are woken.
  unfoldable pub on_interrupt : Uart U → Uart U × List ℕ
  on_interrupt u =
      let (tx, rx, hardware) = U.process_interrupts u.hardware in
      let (sent, tx_woken) = signal_tx tx (record u { hardware = hardware }) in
      let (received, rx_woken) = signal_rx rx sent in (received, tx_woken ++ rx_woken)
