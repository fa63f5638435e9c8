-- ===== src/Supervisor/Preemption/Tests.antt =====
-- An actor that counts, interrupted and sent to while the executor polls it.
use drogue_device.Base.{
  ℕ, zero, suc, ◌+◌, ◌≡◌, refl, ◌⊎◌, true, false, none, some, [], ◌∷◌, Outcome, done, panic, ◌>>=◌,
  arith,
}
use mathlib.Core.Path.{subst}
use drogue_device.Fifo.{Fifo, list_fifo}
use drogue_device.Actor.Code.{ActorCode, Completion, Response, Polled}
use drogue_device.Actor.Item.{poll, Item, on_notify, on_request}
use drogue_device.Actor.Context.{waiting, ready, Context, Polling, do_poll, new, send}
use drogue_device.Supervisor.Preemption.{
  resting, checking, running, leaving, State, exec, exec_times, interrupted, executes, interrupts,
  arrives, Reach, start, later,
}
use drogue_device.Supervisor.Preemption.Safety.{Runs, Reach-Runs}
use drogue_device.Supervisor.Preemption.Notices.{Looks}
use drogue_device.Supervisor.Preemption.Wakeups.{Always, Reach-resting, leaving-arrives}
use drogue_device.Supervisor.Preemption.Refine.{loop, ended, Ends, exec_times-do_poll}

abbrev keeps : ℕ → ℕ → Completion ℕ ℕ × ℕ
keeps self world = (Completion.immediate self, world)

-- A notification is added to the count; a request waits for as many polls as it says.
abbrev counter : ActorCode
counter = record {
  Self = ℕ;
  Message = ℕ;
  Ask = ℕ;
  Answer = ℕ;
  World = ℕ;
  Task = ℕ;
  AskTask = ℕ × ℕ;
  AnswerTask = ℕ;
  on_initialize = keeps;
  on_start = keeps;
  on_sleep = keeps;
  on_hibernate = keeps;
  on_stop = keeps;
  on_notify = λ m self world. (Completion.immediate (self + m), world);
  on_request = λ m self world. (Response.defer (self, m), world);
  poll_task = λ t world. (Polled.ready t, world);
  poll_ask = polls;
}
  where
    polls : ℕ × ℕ → ℕ → Polled (ℕ × ℕ) (ℕ × ℕ) × ℕ
    polls (self, zero) world = (Polled.ready (self, self), world)
    polls (self, suc n) world = (Polled.pending (self, n), world)

abbrev mailbox : Fifo (Item counter)
mailbox = list_fifo 16

-- The interrupt counts ten, and counts itself in the world.
abbrev on_interrupt : ℕ → ℕ → ℕ × ℕ
on_interrupt self world = (self + 10, suc world)

abbrev add : ℕ → Item counter
add n = on_notify (some n) none

-- The executor takes `n` steps.
exec_times-Reach :
    {Allowed : State counter mailbox → Type 0} (n : ℕ) (s t : State counter mailbox)
    → exec_times counter mailbox n s ≡ done t
    → Reach counter mailbox on_interrupt Allowed s
    → Reach counter mailbox on_interrupt Allowed t
unfolding exec_times
exec_times-Reach {Allowed} zero s t e r =
    subst (Reach counter mailbox on_interrupt Allowed) (ground (arith, e)) r
exec_times-Reach {Allowed} (suc n) s t e r =
    go (exec counter mailbox s) refl e (λ u f q. exec_times-Reach n u t f q)
  where
    go :
        (o : Outcome (State counter mailbox))
        → exec counter mailbox s ≡ o
        → (o >>= exec_times counter mailbox n) ≡ done t
        → ((u : State counter mailbox)
            → exec_times counter mailbox n u ≡ done t
            → Reach counter mailbox on_interrupt Allowed u
            → Reach counter mailbox on_interrupt Allowed t)
        → Reach counter mailbox on_interrupt Allowed t
    go (done u) e f k = k u f (later r (executes e))
    go panic e f k = cc

-- One message; the executor is inside its handler, with the actor.
abbrev in_handler : State counter mailbox
in_handler = record {
  context = record {
    actor = none;
    current = some (add 3);
    items = [];
    in_flight = true;
    flag = ready;
  };
  pc = running (some 5) (add 3);
  polled = true;
  world = 0;
  sent = [];
}

in_handler_reached : Reach counter mailbox on_interrupt (Always counter mailbox) in_handler
unfolding exec exec_times send new interrupted poll
in_handler_reached =
    exec_times-Reach 6 _ in_handler refl (later (start 5 0) (arrives (add 3) tt tt refl))

Reach-Runs_example :
    Runs counter mailbox (exec counter mailbox in_handler)
    × Runs counter mailbox (interrupted counter mailbox on_interrupt in_handler)
Reach-Runs_example = Reach-Runs counter mailbox on_interrupt in_handler_reached

-- The interrupt is dropped while the handler has the actor.
interrupted-in_handler : interrupted counter mailbox on_interrupt in_handler ≡ done in_handler
unfolding interrupted
interrupted-in_handler = refl

-- The loop has found the mailbox empty.
abbrev on_its_way_out : State counter mailbox
on_its_way_out = record {
  context = record { actor = some 5; current = none; items = []; in_flight = false; flag = ready };
  pc = leaving;
  polled = true;
  world = 0;
  sent = [];
}

on_its_way_out_reached : Reach counter mailbox on_interrupt (Always counter mailbox) on_its_way_out
unfolding exec exec_times send new interrupted poll
on_its_way_out_reached = exec_times-Reach 5 _ on_its_way_out refl (start 5 0)

leaving-arrives_example :
    (t : State counter mailbox) × Reach counter mailbox on_interrupt (Always counter mailbox) t
    × (t.pc ≡ resting)
    × (t.context.flag ≡ waiting)
    × (t.context.items ≡ add 3 ∷ [])
    × (exec counter mailbox t ≡ done t)
leaving-arrives_example =
    leaving-arrives counter mailbox on_interrupt (add 3) on_its_way_out_reached refl refl tt
      (omega arith)

-- An interrupt and a message between two steps of the first poll.
abbrev at_rest : State counter mailbox
at_rest = record {
  context = record {
    actor = some 18;
    current = none;
    items = [];
    in_flight = false;
    flag = waiting;
  };
  pc = resting;
  polled = true;
  world = 1;
  sent = [];
}

at_rest_reached : Reach counter mailbox on_interrupt (Looks counter mailbox) at_rest
unfolding exec exec_times send new interrupted poll
at_rest_reached =
    exec_times-Reach 13 _ at_rest refl
      (later (later (start 5 0) (arrives (add 3) tt tt refl)) (interrupts refl))

Reach-resting_example : (waiting ≡ ready) ⊎ (mailbox.contents [] ≡ [])
Reach-resting_example = Reach-resting counter mailbox on_interrupt at_rest_reached refl refl

-- A request that waits, behind a message.
abbrev busy : Context counter mailbox
busy = record {
  actor = some 5;
  current = none;
  items = add 3 ∷ on_request (some 1) 7 none ∷ [];
  in_flight = false;
  flag = ready;
}

exec_times-do_poll_example :
    (o : Outcome (Polling counter mailbox)) × (do_poll counter mailbox 3 busy 0 ≡ some o)
    × Ends counter mailbox true
        (loop counter mailbox true checking busy 0 [])
        (ended counter mailbox true [] o)
exec_times-do_poll_example = exec_times-do_poll counter mailbox true 3 busy 0 [] (omega arith)
