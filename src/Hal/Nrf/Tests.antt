-- ===== src/Hal/Nrf/Tests.antt =====
-- The UARTE of a simulated chip.
use drogue_device.Base.{
  ℕ, ◌+◌, ◌-◌, ◌*◌, ◌^◌, ◌≡◌, refl, true, false, some, List, [], ◌∷◌, arith, ◌⊎◌,
}
use drogue_device.Hal.Nrf.{
  Registers, Task, Chip, Slice, start_write, start_read, cancel_write, cancel_read, finish_read,
}
use drogue_device.Hal.Nrf.Waits.{AnswersWithin, cancel-returns}
use drogue_device.Hal.Nrf.Transmit.{
  IsDma, write_refused, read_refused, sends, receives, start_write-start_read, nrf, slice_at,
  polled, write-on_interrupt,
}
use drogue_device.Driver.Uart.{Uart, State, defer, ok, err, write, poll_tx, on_interrupt}
use drogue_device.Sync.Signal

-- Its events come one step after their task.
abbrev reacts : Task → Registers → Registers
reacts Task.starttx r = record r { txstarted = true }
reacts Task.stoptx r = record r { txstarted = false }
reacts Task.startrx r = r
reacts Task.stoprx r = r
reacts Task.flushrx r = r

abbrev chip : Chip
chip = record {
  easy_dma_size = 2 ^ 16 - 1;
  sram_lower = 2 ^ 29;
  sram_upper = 3 * 2 ^ 28;
  maxcnt_width = 16;
  trigger = reacts;
  tick = λ r. record r { txstopped = true; rxto = true; endrx = true };
}

chip-AnswersWithin : AnswersWithin chip 2
chip-AnswersWithin = record {
  stoptx = λ r. (1, omega arith, refl);
  stoprx = λ r. (1, omega arith, refl);
  flushrx = λ r. (1, omega arith, refl);
}

abbrev at_reset : Registers
at_reset = record {
  endtx = false;
  endrx = false;
  txstarted = false;
  txstopped = false;
  rxto = false;
  error = false;
  txd_ptr = 0;
  txd_maxcnt = 0;
  rxd_ptr = 0;
  rxd_maxcnt = 0;
  rxd_amount = 0;
  enable = false;
}

cancels_in_time :
    ((s : Registers) × (cancel_write chip 10 at_reset ≡ some s)
      × (s.endtx ≡ false)
      × (s.txstopped ≡ false))
    × ((s : Registers) × (cancel_read chip 10 at_reset ≡ some s)
        × (s.endrx ≡ true)
        × ((finish_read chip s).1.endrx ≡ false))
cancels_in_time = cancel-returns chip 2 10 at_reset chip-AnswersWithin (omega arith)

-- Sixteen bytes in flash.
abbrev constant : Slice
constant = record { ptr = 4096; len = 16 }

start_write-start_read_example :
    (IsDma chip constant
      × (start_write chip constant at_reset
          ≡ (ok tt, reacts Task.starttx (sends chip constant at_reset)))
      × (start_read chip constant at_reset
          ≡ (ok tt, reacts Task.startrx (receives chip constant at_reset))))
    ⊎ (¬ IsDma chip constant
        × (start_write chip constant at_reset ≡ (err (write_refused chip constant), at_reset))
        × (start_read chip constant at_reset ≡ (err (read_refused chip constant), at_reset)))
start_write-start_read_example =
    start_write-start_read chip constant at_reset (omega arith) (omega arith)

abbrev place : ℕ → ℕ
place n = 2 ^ 29 + 64

abbrev bytes : List ℕ
bytes = 65 ∷ 66 ∷ 67 ∷ []

abbrev driver : Uart (nrf chip 8 place)
driver = record {
  tx_state = State.ready;
  rx_state = State.ready;
  hardware = some at_reset;
  tx_done = Signal.State.empty;
  rx_done = Signal.State.empty;
}

abbrev aborted : Registers
aborted = record at_reset { txstopped = true }

write-on_interrupt_example :
    let interrupted =
      on_interrupt
        (nrf chip 8 place)
        (record (polled chip 8 place bytes 5 driver) { hardware = some aborted }) in
    ((write (nrf chip 8 place) bytes driver).0 ≡ defer)
    × ((write (nrf chip 8 place) bytes driver).1.hardware
        ≡ some (reacts Task.starttx (sends chip (slice_at chip 8 place 3) at_reset)))
    × ((poll_tx (nrf chip 8 place) defer 5 (write (nrf chip 8 place) bytes driver).1).0
        ≡ Signal.Poll.pending)
    × (interrupted.1 ≡ 5 ∷ [])
    × ((t : Registers) × (poll_tx (nrf chip 8 place) defer 5 interrupted.0 ≡ (
      Signal.Poll.ready (ok tt),
      record driver { hardware = some t; tx_state = State.ready; tx_done = Signal.State.empty },
    ))
        × (t.endtx ≡ false)
        × (t.txstopped ≡ false))
write-on_interrupt_example =
    write-on_interrupt chip 8 place 2 5 bytes driver at_reset aborted chip-AnswersWithin
      (omega arith) (omega arith) (omega arith)
      (record { low = omega arith; high = omega arith; short = omega arith }) refl refl refl refl
