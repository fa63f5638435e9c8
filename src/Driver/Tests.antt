-- ===== src/Driver/Tests.antt =====
-- Runs of the drivers, and their theorems at concrete inputs.
use drogue_device.Base.{
  ℕ, ◌≡◌, refl, Bool, true, false, ◌==◌, if◌then◌else◌, none, some, List, [], ◌∷◌, Outcome, done,
  panic, arith,
}
use drogue_device.Driver.Cell.{cell, borrow, borrow_mut}
use drogue_device.Driver.Timer.{
  Shared, Effect, starts, notifies, new, on_notify, on_request, expire_delays, expire_schedules,
  first_free, put, start_shorter,
}
use drogue_device.Driver.Timer.Deadline.{expirations}
use drogue_device.Driver.Timer.Invariant.{
  IsTimed, new-IsTimed, on_interrupt-IsTimed, started, Op, schedules, interrupts, run, run-IsTimed,
}
use drogue_device.Driver.Timer.Delay.{on_request-DelayCase}
use drogue_device.Driver.Uart.{
  HalUart, Uart, Future, Result, ok, err, Error, defer, error, in_progress, write, read, poll_tx,
  poll_rx, on_interrupt, drop_tx,
}
use drogue_device.Driver.Timer
use drogue_device.Driver.Uart
use drogue_device.Driver.Uart.Stuck.{AllRefused, write-drop_tx}
use drogue_device.Driver.Uart.Stuck
use drogue_device.Driver.Uart.Transfer.{sent, write-poll_tx}
use drogue_device.Sync.Signal

-- Event 1 after 100, and event 2 after 40 and again after 150.
abbrev ops : List (Op ℕ)
ops = schedules 100 1 ∷ schedules 40 2 ∷ schedules 150 2 ∷ interrupts ∷ interrupts ∷ []

abbrev Ran : Outcome (Shared ℕ × List (Effect ℕ)) → Type 0
Ran panic = ⊥
Ran (done (s, effects)) =
    effects ≡ starts 100 ∷ starts 40 ∷ notifies 2 ∷ starts 60 ∷ notifies 1 ∷ starts 50 ∷ []

ops_effects : Ran (run ops new)
unfolding on_notify Timer.on_interrupt new borrow borrow_mut first_free put start_shorter
    expire_delays expire_schedules
ops_effects = refl

run-IsTimed_example :
    (t : Shared ℕ) × (effects : List (Effect ℕ)) × (run ops new ≡ done (t, effects)) × IsTimed t
run-IsTimed_example =
    run-IsTimed ops new (omega arith, (omega arith, (omega arith, tt))) new-IsTimed

abbrev two : Shared ℕ
two = record {
  current_deadline = cell (some 40);
  delay_deadlines = cell [];
  schedule_deadlines = cell (
      some (record { expiration = 100; event = 1 })
      ∷ none
      ∷ some (record { expiration = 40; event = 2 })
      ∷ []);
}

on_interrupt-IsTimed_example :
    (s' : Shared ℕ) × (effects : List (Effect ℕ)) × (Timer.on_interrupt two ≡ done (s', effects))
    × IsTimed s'
    × (expirations s'.schedule_deadlines.value ≡ 60 ∷ [])
    × (effects ≡ notifies 2 ∷ started s'.current_deadline.value)
on_interrupt-IsTimed_example =
    on_interrupt-IsTimed two 40
      (record {
        current_unused = refl;
        delays_unused = refl;
        schedules_unused = refl;
        no_delays = tt;
        positive = (omega arith, (omega arith, tt));
        current = refl;
      })
      refl

on_request-DelayCase_example : on_request {E = ℕ} 100 new ≡ panic
unfolding new first_free
on_request-DelayCase_example = on_request-DelayCase 100 new refl

-- A transfer is over at the first interrupt; an empty buffer is refused.
abbrev start_at : ℕ → List ℕ → ℕ → Result (Unit {0}) × ℕ
start_at to [] h = (err Error.tx_buffer_too_small, h)
start_at to (b ∷ bytes) h = (ok tt, to)

abbrev process : ℕ → Bool × Bool × ℕ
process h =
    if h == 1 then (true, false, 2) else if h == 3 then (false, true, 4) else (false, false, h)

abbrev hal : HalUart
hal = record {
  Hardware = ℕ;
  start_write = start_at 1;
  finish_write = λ h. (ok tt, 0);
  cancel_write = λ h. 0;
  start_read = λ room h. (ok tt, 3);
  finish_read = λ h. (ok 8, 0);
  cancel_read = λ h. 0;
  process_interrupts = process;
}

abbrev idle_uart : Uart hal
idle_uart = record {
  tx_state = Uart.ready;
  rx_state = Uart.ready;
  hardware = 0;
  tx_done = Signal.State.empty;
  rx_done = Signal.State.empty;
}

write-poll_tx_example :
    ((write hal (5 ∷ []) idle_uart).0 ≡ defer)
    × ((poll_tx hal defer 9 (write hal (5 ∷ []) idle_uart).1).0 ≡ Signal.Poll.pending)
    × ((on_interrupt hal (sent hal (5 ∷ []) 9 idle_uart)).1 ≡ 9 ∷ [])
    × (poll_tx hal defer 9 (on_interrupt hal (sent hal (5 ∷ []) 9 idle_uart)).0
        ≡ (Signal.Poll.ready (ok tt), idle_uart))
write-poll_tx_example = write-poll_tx hal (5 ∷ []) 9 idle_uart 1 2 0 (ok tt) refl refl refl refl

abbrev later_ops : List Stuck.Op
later_ops =
    Stuck.writes (1 ∷ [])
    ∷ Stuck.reads 8
    ∷ Stuck.interrupts
    ∷ Stuck.polls defer 9
    ∷ Stuck.writes (2 ∷ [])
    ∷ []

abbrev in_transfer : Uart hal
in_transfer = record idle_uart { tx_state = in_progress; hardware = 1 }

write-drop_tx_example :
    ((write hal [] idle_uart).0 ≡ error Error.tx_buffer_too_small)
    × AllRefused hal (Stuck.run hal later_ops (write hal [] idle_uart).1).0
    × ((drop_tx hal defer in_transfer).hardware ≡ 0)
    × AllRefused hal (Stuck.run hal later_ops (drop_tx hal defer in_transfer)).0
write-drop_tx_example =
    write-drop_tx hal [] idle_uart in_transfer Error.tx_buffer_too_small 0 later_ops refl refl refl
