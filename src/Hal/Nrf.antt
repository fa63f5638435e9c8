-- ===== src/Hal/Nrf.antt =====
-- src/hal/uart/nrf.rs: the UARTE of the nRF. Events and tasks are as the code sees them; what the
-- peripheral does is a parameter, and so are the constants of the chip. It acts when a task is
-- triggered and between two reads of a loop that waits. A loop runs on fuel; `none` is one that has
-- not ended.
pub mod Transmit
pub mod Waits
mod Tests
use drogue_device.Base.{
  ℕ, zero, suc, ◌+◌, ◌%◌, ◌^◌, Bool, true, false, ◌&&◌, ◌||◌, ltb, leb, if◌then◌else◌, Option, none,
  some, List, length,
}
use drogue_device.Hal.{◌>>=◌}
use drogue_device.Driver.Uart.{HalUart, Result, ok, err, Error}
use drogue_device.Driver.Uart

pub record Registers : Type 0 where
  pub endtx : Bool
  pub endrx : Bool
  pub txstarted : Bool
  pub txstopped : Bool
  pub rxto : Bool
  pub error : Bool
  pub txd_ptr : ℕ
  pub txd_maxcnt : ℕ
  pub rxd_ptr : ℕ
  pub rxd_maxcnt : ℕ
  pub rxd_amount : ℕ
  pub enable : Bool

pub data Task : Type 0 where
  starttx stoptx startrx stoprx flushrx : Task

-- The width of MAXCNT is that of the register.
pub record Chip : Type 0 where
  pub easy_dma_size : ℕ
  pub sram_lower : ℕ
  pub sram_upper : ℕ
  pub maxcnt_width : ℕ
  pub trigger : Task → Registers → Registers
  pub tick : Registers → Registers

-- A slice of bytes: its address and its length.
pub record Slice : Type 0 where
  pub ptr : ℕ
  pub len : ℕ

module _ (C : Chip) where
  unfoldable pub slice_in_ram : Slice → Bool
  slice_in_ram slice =
      leb C.sram_lower slice.ptr && ltb ((slice.ptr + slice.len) % 2 ^ 32) C.sram_upper

  abbrev pub set_tx : Slice → Registers → Registers
  set_tx tx_buffer r = record r {
    endtx = false;
    txstopped = false;
    txd_ptr = tx_buffer.ptr % 2 ^ 32;
    txd_maxcnt = tx_buffer.len % 2 ^ C.maxcnt_width;
  }

  -- `Uart::start_write` with the function `start_write`
  unfoldable pub start_write : Slice → Registers → Result (Unit {0}) × Registers
  start_write tx_buffer r =
      if ltb C.easy_dma_size tx_buffer.len
      then (err Error.tx_buffer_too_long, r)
      else if slice_in_ram tx_buffer
      then (ok tt, C.trigger Task.starttx (set_tx tx_buffer r))
      else (err Error.buffer_not_in_ram, r)

  abbrev pub set_rx : Slice → Registers → Registers
  set_rx rx_buffer r = record r {
    enable = true;
    rxd_ptr = rx_buffer.ptr % 2 ^ 32;
    rxd_maxcnt = rx_buffer.len % 2 ^ C.maxcnt_width;
  }

  -- `Uart::start_read` with the function `start_read`
  unfoldable pub start_read : Slice → Registers → Result (Unit {0}) × Registers
  start_read rx_buffer r =
      if slice_in_ram rx_buffer
      then if ltb C.easy_dma_size rx_buffer.len
        then (err Error.rx_buffer_too_long, r)
        else (ok tt, C.trigger Task.startrx (set_rx rx_buffer r))
      else (err Error.buffer_not_in_ram, r)

  -- `while event == 0 {}`
  unfoldable pub wait_for : (Registers → Bool) → (fuel : ℕ) → Registers → Option Registers
  wait_for event zero r = none
  wait_for event (suc fuel) r =
      let again = wait_for event fuel (C.tick r) in if event r then some r else again

  abbrev pub reset_tx : Registers → Registers
  reset_tx r = record r { endtx = false; txstopped = false }

  unfoldable pub stop_write : (fuel : ℕ) → Registers → Option Registers
  stop_write fuel r = do
    stopped ← wait_for (λ s. s.txstopped) fuel (C.trigger Task.stoptx r)
    some (reset_tx stopped)

  unfoldable pub finish_write : (fuel : ℕ) → Registers → Option (Result (Unit {0}) × Registers)
  finish_write fuel r =
      if r.txstopped
      then some (err Error.transmit, r)
      else (do stopped ← stop_write fuel r; some (ok tt, stopped))

  unfoldable pub cancel_write : (fuel : ℕ) → Registers → Option Registers
  cancel_write fuel r = do stopped ← stop_write fuel r; some (reset_tx stopped)

  unfoldable pub cancel_read : (fuel : ℕ) → Registers → Option Registers
  cancel_read fuel r = do
    stopped ← wait_for (λ s. s.rxto) fuel (C.trigger Task.stoprx r)
    wait_for (λ s. s.endrx) fuel (C.trigger Task.flushrx (record stopped { rxto = false }))

  -- The two flags are read before any event is reset.
  unfoldable pub process_interrupts : Registers → Bool × Bool × Registers
  process_interrupts r = (
    r.endtx || r.txstopped,
    r.endrx,
    record r { error = false; txstarted = false; txstopped = false; endtx = false; endrx = false },
  )

  unfoldable pub finish_read : Registers → Result ℕ × Registers
  finish_read r = (ok r.rxd_amount, record r { endrx = false })

  abbrev running : {A : Type 0} → Result A × Registers → Result A × Option Registers
  running (result, r) = (result, some r)

  abbrev finished : Option (Result (Unit {0}) × Registers) → Result (Unit {0}) × Option Registers
  finished none = (ok tt, none)
  finished (some (result, r)) = (result, some r)

  -- The trait `Uart`, for buffers at the addresses `place`. Without registers the processor is in a
  -- loop that has not ended: what is returned there is never seen.
  abbrev pub uart : (fuel : ℕ) (place : ℕ → ℕ) → HalUart
  uart fuel place = record {
    Hardware = Option Registers;
    start_write = λ bytes h. elim h [
      | none ↦ (ok tt, none)
      | some r ↦ running (start_write (record { ptr = place (length bytes); len = length bytes }) r)
    ];
    finish_write = λ h. elim h [ none ↦ (ok tt, none) | some r ↦ finished (finish_write fuel r) ];
    cancel_write = λ h. h >>= cancel_write fuel;
    start_read = λ room h. elim h [
      | none ↦ (ok tt, none)
      | some r ↦ running (start_read (record { ptr = place room; len = room }) r)
    ];
    finish_read = λ h. elim h [ none ↦ (ok 0, none) | some r ↦ running (finish_read r) ];
    cancel_read = λ h. h >>= cancel_read fuel;
    process_interrupts = λ h. elim h [
      | none ↦ (false, false, none)
      | some r ↦ let (tx, rx, s) = process_interrupts r in (tx, rx, some s)
    ];
  }
