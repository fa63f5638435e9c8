-- ===== src/Supervisor/Tests.antt =====
-- Runs of the executor, and its theorems at concrete inputs.
use drogue_device.Base.{
  ◌==◌, ◌++◌, ℕ, zero, suc, ◌≡◌, refl, Bool, true, false, some, List, [], ◌∷◌, Outcome, done, arith,
}
use drogue_device.Actor.Context.{waiting, ready}
use drogue_device.Supervisor.Executor.{System, state_at, poll, run_until_quiescence}
use drogue_device.Supervisor.Executor
use drogue_device.Supervisor.Interrupts.{Interruptable, on_interrupt}
use drogue_device.Supervisor.Executor.Quiescence.{Pays, Quiet, run_until_quiescence-Quiet}

-- Two actors count down together: a poll of the first takes one off and wakes the second, which wakes
-- the first.
abbrev countdown : ℕ → ℕ → Outcome (Bool × ℕ × List ℕ)
countdown i zero = done (false, 0, [])
countdown zero (suc n) = done (false, n, 1 ∷ [])
countdown (suc i) (suc n) = done (false, n, 0 ∷ [])

countdown-Pays : (i n : ℕ) → Pays (λ k. k) n (countdown i n)
countdown-Pays i zero = omega arith
countdown-Pays zero (suc n) = omega arith
countdown-Pays (suc i) (suc n) = omega arith

abbrev two_actors : System ℕ
two_actors = record { states = ready ∷ waiting ∷ []; world = 3 }

run_two_actors :
    run_until_quiescence countdown 9 two_actors
    ≡ some (done (record { states = waiting ∷ waiting ∷ []; world = 0 }))
unfolding run_until_quiescence Executor.pass poll
run_two_actors = refl

run_until_quiescence-Quiet_example :
    (o : Outcome (System ℕ)) × (run_until_quiescence countdown 9 two_actors ≡ some o) × Quiet 2 o
run_until_quiescence-Quiet_example =
    run_until_quiescence-Quiet countdown (λ k. k) countdown-Pays 9 two_actors (omega arith)

-- An actor that wakes itself while it is polled.
abbrev wakes_itself : ℕ → ℕ → Outcome (Bool × ℕ × List ℕ)
wakes_itself i n = done (false, suc n, i ∷ [])

wakes_itself_waits :
    poll wakes_itself 0 two_actors
    ≡ done (true, record { states = waiting ∷ waiting ∷ []; world = 4 })
unfolding poll
wakes_itself_waits = refl

-- Actor 1 is in flight.
abbrev busy : ℕ → List ℕ → Bool
busy actor world = actor == 1

abbrev record_interrupt : ℕ → List ℕ → Outcome (List ℕ)
record_interrupt actor world = done (actor ∷ world)

abbrev registered : List Interruptable
registered = record { irq = 3; interrupt = 0 } ∷ record { irq = 3; interrupt = 1 } ∷ []

on_interrupt_skips :
    on_interrupt busy record_interrupt 259 (registered ++ record { irq = 3; interrupt = 2 } ∷ []) []
    ≡ done (2 ∷ 0 ∷ [])
unfolding on_interrupt
on_interrupt_skips = refl
