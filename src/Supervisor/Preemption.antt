-- ===== src/Supervisor/Preemption.antt =====
-- src/supervisor/actor_executor.rs and src/supervisor/interrupt_dispatcher.rs, interleaved: the
-- executor polls an actor by single accesses to the shared fields of its context, and between any two
-- of them an interrupt may reach the actor, a message may arrive, a waker may be called, and the rest
-- of the system may change. A handler is one step: what arrives while it runs could as well arrive
-- before or after it. `Reach` holds the states that such interleavings lead to.
mod Phases
mod Notices
mod Refine
mod Safety
mod Wakeups
mod Tests
use drogue_device.Base.{
  ℕ, zero, suc, ◌≡◌, Bool, true, false, if◌then◌else◌, Option, none, some, List, [], ◌++◌, Outcome,
  done, panic, ◌>>=◌,
}
use drogue_device.Fifo.{Fifo}
use drogue_device.Actor.Code.{Lifecycle, ActorCode}
use drogue_device.Actor.Item.{Item, on_lifecycle, on_notify, on_request, Sent, Step, poll}
use drogue_device.Actor.Item.Safe.{IsFresh}
use drogue_device.Actor.Context.{ActorState, idle, waiting, ready, Context, new, send}
use drogue_device.Supervisor.Interrupts.{interrupt_of}

-- Where the executor is: in `Supervised::poll` before or after the loop (`resting`, `leaving`), or at
-- the next access of `do_poll`. `running` is inside `item.poll`, with the actor if the item took it out
-- of its cell.
pub data Pc (C : ActorCode) : Type 0 where
  resting checking dequeuing marking clearing polling dropping leaving : Pc C
  installing : Item C → Pc C
  running : Option C.Self → Item C → Pc C

-- `polled`: the loop was called by `Supervised::poll`, not by `ActorContext::lifecycle`.
pub record State (C : ActorCode) (Q : Fifo (Item C)) : Type 0 where
  pub context : Context C Q
  pub pc : Pc C
  pub polled : Bool
  pub world : C.World
  pub sent : List (Sent C)

module _ {C : ActorCode} where
  -- The items call `take_actor` at their first poll.
  abbrev pub takes_actor : Item C → Bool
  takes_actor (on_lifecycle event dispatched defer) = if dispatched then false else true
  takes_actor (on_notify (some message) defer) = true
  takes_actor (on_notify none defer) = false
  takes_actor (on_request (some message) sender defer) = true
  takes_actor (on_request none sender defer) = false

module _ (C : ActorCode) (Q : Fifo (Item C)) where
  abbrev pub go : Pc C → Context C Q → State C Q → Outcome (State C Q)
  go pc c s = done (record s { context = c; pc = pc })

  -- `is_ready` at the head of `Supervised::poll`
  abbrev pub if_ready : ActorState → State C Q → Outcome (State C Q)
  if_ready ready s = done (record s { pc = checking; polled = true })
  if_ready waiting s = done s
  if_ready idle s = done s

  abbrev pub check : Option (Item C) → State C Q → Outcome (State C Q)
  check none s = go dequeuing s.context s
  check (some item) s = go polling s.context s

  abbrev pub dequeued : Option (Item C × Q.Queue) → State C Q → Outcome (State C Q)
  dequeued none s = go clearing s.context s
  dequeued (some (item, items)) s = go (installing item) (record s.context { items = items }) s

  -- `take_actor().expect("actor is missing")`
  abbrev pub take_actor : Option C.Self → Item C → State C Q → Outcome (State C Q)
  take_actor none item s = panic
  take_actor (some self) item s =
      go (running (some self) item) (record s.context { actor = none }) s

  abbrev pub poll_item : Option (Item C) → State C Q → Outcome (State C Q)
  poll_item none s = go leaving s.context s
  poll_item (some item) s =
      if takes_actor item
      then take_actor s.context.actor item s
      else go (running none item) s.context s

  abbrev pub held : Option C.Self → Option C.Self → Option C.Self
  held (some self) cell = some self
  held none cell = cell

  -- The end of `item.poll`: the actor and the item are written back.
  abbrev pub polled_item : State C Q → Outcome (Step C) → Outcome (State C Q)
  polled_item s panic = panic
  polled_item s (done r) = done (record {
    context = record s.context { actor = r.actor; current = some r.item };
    pc = if r.is_ready then dropping else leaving;
    polled = s.polled;
    world = r.world;
    sent = s.sent ++ r.sent;
  })

  -- `current.take().unwrap()`
  abbrev pub drop : Option (Item C) → State C Q → Outcome (State C Q)
  drop none s = panic
  drop (some item) s = go checking (record s.context { current = none }) s

  -- `do_poll` is always `Pending`.
  abbrev pub leave : Bool → State C Q → Outcome (State C Q)
  leave true s = go resting (record s.context { flag = waiting }) s
  leave false s = go resting s.context s

  abbrev pub exec_at : Pc C → State C Q → Outcome (State C Q)
  exec_at resting s = if_ready s.context.flag s
  exec_at checking s = check s.context.current s
  exec_at dequeuing s = dequeued (Q.dequeue s.context.items) s
  exec_at (installing item) s = go marking (record s.context { current = some item }) s
  exec_at marking s = go polling (record s.context { in_flight = true }) s
  exec_at clearing s = go polling (record s.context { in_flight = false }) s
  exec_at polling s = poll_item s.context.current s
  exec_at (running self item) s = polled_item s (poll C (held self s.context.actor) item s.world)
  exec_at dropping s = drop s.context.current s
  exec_at leaving s = leave s.polled s

  -- A mounted actor that was not polled yet.
  abbrev pub first : C.Self → C.World → State C Q
  first actor world = record {
    context = new C Q actor;
    pc = resting;
    polled = false;
    world = world;
    sent = [];
  }

  -- One step of the executor.
  unfoldable pub exec : State C Q → Outcome (State C Q)
  exec s = exec_at s.pc s

  unfoldable pub exec_times : ℕ → State C Q → Outcome (State C Q)
  exec_times zero s = done s
  exec_times (suc n) s = exec s >>= exec_times n

  -- `ActorContext::interrupt` unwraps the actor.
  module _ (on_interrupt : C.Self → C.World → C.Self × C.World) where
    abbrev pub interrupt_actor : Option C.Self → State C Q → Outcome (State C Q)
    interrupt_actor none s = panic
    interrupt_actor (some self) s =
        let (self', world') = on_interrupt self s.world in
        done (record s { context = record s.context { actor = some self' }; world = world' })

    -- `InterruptContext::on_interrupt`
    unfoldable pub interrupted : State C Q → Outcome (State C Q)
    interrupted s =
        interrupt_of (λ i t. t.context.in_flight) (λ i t. interrupt_actor t.context.actor t) 0 s

    -- `Allowed` says when a message may arrive.
    pub data Move (Allowed : State C Q → Type 0) : State C Q → State C Q → Type 0 where
      executes : {s t : State C Q} → exec s ≡ done t → Move Allowed s t
      dispatches :
          {s : State C Q} {c : Context C Q}
          → (event : Lifecycle) → s.pc ≡ resting
          → send C Q (on_lifecycle event false none) s.context ≡ done c
          → Move Allowed s (record s { context = c; pc = checking; polled = false })
      interrupts : {s t : State C Q} → interrupted s ≡ done t → Move Allowed s t
      arrives :
          {s : State C Q} {c : Context C Q}
          → (item : Item C) → IsFresh C item
          → Allowed s
          → send C Q item s.context ≡ done c
          → Move Allowed s (record s { context = c })
      wakes :
          {s : State C Q}
          → Move Allowed s (record s { context = record s.context { flag = ready } })
      changes : {s : State C Q} → (world : C.World) → Move Allowed s (record s { world = world })

    pub data Reach (Allowed : State C Q → Type 0) : State C Q → Type 0 where
      start : (actor : C.Self) (world : C.World) → Reach Allowed (first actor world)
      later : {s t : State C Q} → Reach Allowed s → Move Allowed s t → Reach Allowed t
