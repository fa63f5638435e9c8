-- ===== src/Hal/Nrf/Transmit.antt =====
-- The UART driver on the UARTE.
use drogue_device.Base.{
  ℕ, ◌+◌, ◌%◌, ◌^◌, ◌≤◌, ◌<◌, ◌≡◌, refl, ap, true, false, ◌&&◌, ◌||◌, ltb, leb, if◌then◌else◌, some,
  List, [], ◌∷◌, length, arith, ◌⊎◌, inl, inr, Bool-cases,
}
use native.Mathlib.Nat.{mod-eq_of_lt}
use drogue_device.Hal.Nrf.{
  Registers, Task, Chip, Slice, slice_in_ram, start_write, start_read, finish_write,
  process_interrupts, uart,
}
use drogue_device.Hal.Nrf.Waits.{AnswersWithin, stop_write-returns}
use drogue_device.Driver.Uart.{
  HalUart, Uart, State, defer, ok, err, Error, write, poll_tx, on_interrupt,
}
use drogue_device.Sync.Signal.{poll_wait, signal, reset}
use drogue_device.Sync.Signal

module _ (C : Chip) where
  -- The addresses of the slice lie in the RAM of the chip, and a transfer of this length is possible.
  pub record IsDma (b : Slice) : Type 0 where
    pub low : C.sram_lower ≤ b.ptr
    pub high : b.ptr + b.len < C.sram_upper
    pub short : b.len ≤ C.easy_dma_size

  abbrev pub write_refused : Slice → Error
  write_refused b =
      if ltb C.easy_dma_size b.len then Error.tx_buffer_too_long else Error.buffer_not_in_ram

  abbrev pub read_refused : Slice → Error
  read_refused b = if slice_in_ram C b then Error.rx_buffer_too_long else Error.buffer_not_in_ram

  in_ram :
      (b : Slice)
      → b.ptr + b.len < 2 ^ 32
      → slice_in_ram C b ≡ (leb C.sram_lower b.ptr && ltb (b.ptr + b.len) C.sram_upper)
  unfolding slice_in_ram
  in_ram b h =
      let same : (b.ptr + b.len) % 2 ^ 32 ≡ b.ptr + b.len = omega arith in
      ap (λ n. leb C.sram_lower b.ptr && ltb n C.sram_upper) same

  in_ram-IsDma :
      (b : Slice)
      → b.ptr + b.len < 2 ^ 32
      → slice_in_ram C b ≡ true
      → ltb C.easy_dma_size b.len ≡ false
      → IsDma b
  in_ram-IsDma b h ram short =
      let test = in_ram b h in
      record { low = ground arith; high = ground arith; short = ground arith }

  outside-not_IsDma : (b : Slice) → b.ptr + b.len < 2 ^ 32 → slice_in_ram C b ≡ false → ¬ IsDma b
  outside-not_IsDma b h outside d = let test = in_ram b h in ground (arith, d.low, d.high)

  abbrev pub sends : Slice → Registers → Registers
  sends b r = record r { endtx = false; txstopped = false; txd_ptr = b.ptr; txd_maxcnt = b.len }

  abbrev pub receives : Slice → Registers → Registers
  receives b r = record r { enable = true; rxd_ptr = b.ptr; rxd_maxcnt = b.len }

  -- For a buffer that does not wrap around the address space, where MAXCNT has room for the
  -- greatest length of a transfer: if the buffer ends before the upper end of RAM, starts in it,
  -- and is not too long, start_write and start_read each set its address and length and trigger
  -- their task; if not, both return an error and leave the registers (start_write tests the length
  -- first, start_read the place).
  pub start_write-start_read :
      (b : Slice) (r : Registers)
      → b.ptr + b.len < 2 ^ 32
      → C.easy_dma_size < 2 ^ C.maxcnt_width
      → (IsDma b
          × (start_write C b r ≡ (ok tt, C.trigger Task.starttx (sends b r)))
          × (start_read C b r ≡ (ok tt, C.trigger Task.startrx (receives b r))))
        ⊎ (¬ IsDma b
            × (start_write C b r ≡ (err (write_refused b), r))
            × (start_read C b r ≡ (err (read_refused b), r)))
  unfolding start_write start_read
  start_write-start_read b r h w = elim (Bool-cases (slice_in_ram C b)) [
    | inr outside ↦ inr (
      outside-not_IsDma b h outside,
      elim (Bool-cases (ltb C.easy_dma_size b.len)) [
        | inl long ↦ rw long refl
        | inr short ↦ rw (short, outside) refl
      ],
      rw outside refl,
    )
    | inl ram ↦ elim (Bool-cases (ltb C.easy_dma_size b.len)) [
      | inl long ↦ inr ((λ d. ground (arith, d.short)), rw long refl, rw (ram, long) refl)
      | inr short ↦
          let ptr : b.ptr % 2 ^ 32 ≡ b.ptr = omega arith in
          let len : b.len % 2 ^ C.maxcnt_width ≡ b.len = mod-eq_of_lt (ground arith) in
          inl (
            in_ram-IsDma b h ram short,
            rw (short, ram, ptr, len) refl,
            rw (short, ram, ptr, len) refl,
          )
    ]
  ]

  start_write-accepted :
      (b : Slice) (r : Registers)
      → b.ptr + b.len < 2 ^ 32
      → C.easy_dma_size < 2 ^ C.maxcnt_width
      → IsDma b
      → start_write C b r ≡ (ok tt, C.trigger Task.starttx (sends b r))
  start_write-accepted b r h w dma = elim (start_write-start_read b r h w) [
    | inl (d, e, _) ↦ e
    | inr (refused, _, _) ↦ absurd (refused dma)
  ]

  -- The driver on this chip, with the buffers at `place`.
  module _ (fuel : ℕ) (place : ℕ → ℕ) where
    abbrev pub nrf : HalUart
    nrf = uart C fuel place

    abbrev pub slice_at : ℕ → Slice
    slice_at n = record { ptr = place n; len = n }

    -- The driver after a write and the first poll of its future.
    abbrev pub polled : List ℕ → ℕ → Uart nrf → Uart nrf
    polled bytes waker u = (poll_tx nrf defer waker (write nrf bytes u).1).1

    -- The UART driver on the UARTE, idle, with a buffer in RAM that is not too long, on a
    -- peripheral that answers STOPTX within the fuel: write starts the DMA with the address and
    -- the length of the buffer, the first poll is pending, and if at the next interrupt ENDTX or
    -- TXSTOPPED is set (and ENDRX is not), the waiting task is woken, the next poll returns Ok -
    -- also if the transmission was stopped and has not ended - the driver is idle, and both events
    -- are clear.
    pub write-on_interrupt :
        (n waker : ℕ) (bytes : List ℕ) (u : Uart nrf) (r s : Registers)
        → AnswersWithin C n
        → n ≤ fuel
        → place (length bytes) + length bytes < 2 ^ 32
        → C.easy_dma_size < 2 ^ C.maxcnt_width
        → IsDma (slice_at (length bytes))
        → u.tx_state ≡ State.ready
        → u.hardware ≡ some r
        → (s.endtx || s.txstopped) ≡ true
        → s.endrx ≡ false
        → let interrupted =
            on_interrupt nrf (record (polled bytes waker u) { hardware = some s }) in
          ((write nrf bytes u).0 ≡ defer)
          × ((write nrf bytes u).1.hardware
              ≡ some (C.trigger Task.starttx (sends (slice_at (length bytes)) r)))
          × ((poll_tx nrf defer waker (write nrf bytes u).1).0 ≡ Signal.Poll.pending)
          × (interrupted.1 ≡ waker ∷ [])
          × ((t : Registers) × (poll_tx nrf defer waker interrupted.0 ≡ (
            Signal.Poll.ready (ok tt),
            record u { hardware = some t; tx_state = State.ready; tx_done = Signal.State.empty },
          ))
              × (t.endtx ≡ false)
              × (t.txstopped ≡ false))
    unfolding write poll_tx on_interrupt poll_wait signal reset process_interrupts finish_write
    write-on_interrupt n waker bytes u r s answers h fits width dma idle hardware over quiet =
        let accepted = start_write-accepted (slice_at (length bytes)) r fits width dma in
        let cleared = record s {
          error = false;
          txstarted = false;
          txstopped = false;
          endtx = false;
          endrx = false;
        } in
        let (t, e, sent, stopped) = stop_write-returns C n fuel cleared answers h in
        (
          rw (idle, hardware, accepted) refl,
          rw (idle, hardware, accepted) refl,
          rw idle refl,
          rw (idle, over, quiet) refl,
          (t, rw (idle, over, quiet, e) refl, sent, stopped),
        )
