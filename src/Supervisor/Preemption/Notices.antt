-- ===== src/Supervisor/Preemption/Notices.antt =====
-- Whether a message in the mailbox has the executor's attention, and that the executor's steps keep
-- it.
use drogue_device.Base.{
  ◌≡◌, refl, inl, inr, Bool, true, false, Option, none, some, List, [], Outcome, done, panic,
  Bool-cases,
}
use drogue_device.Fifo.{Fifo}
use drogue_device.Actor.Code.{ActorCode}
use drogue_device.Actor.Item.{Item, Sent, Step}
use drogue_device.Actor.Context.{ActorState, idle, waiting, ready}
use drogue_device.Supervisor.Preemption.{
  Pc, resting, checking, dequeuing, installing, marking, clearing, polling, running, dropping,
  leaving, State, takes_actor, poll_item, take_actor, if_ready, leave, dequeued, polled_item, exec,
}
use drogue_device.Supervisor.Preemption.Phases.{state_of}

module _ {C : ActorCode} where
  abbrev pub LooksAt : Pc C → Option (Item C) → Type 0
  LooksAt clearing current = ⊥
  LooksAt polling none = ⊥
  LooksAt leaving none = ⊥
  LooksAt _ _ = Unit {0}

  -- What is in the mailbox, `items`, has the executor's attention, or an item is in flight.
  abbrev pub Heard : ActorState → Option (Item C) → List (Item C) → Type 0
  Heard ready current items = Unit {0}
  Heard _ none items = items ≡ []
  Heard _ (some item) items = Unit {0}

  abbrev pub Noticed : Pc C → ActorState → Option (Item C) → List (Item C) → Type 0
  Noticed resting flag current items = Heard flag current items
  Noticed clearing flag none items = items ≡ []
  Noticed clearing flag (some item) items = ⊥
  Noticed polling flag none items = items ≡ []
  Noticed leaving flag none items = items ≡ []
  Noticed marking flag none items = ⊥
  Noticed dequeuing flag (some item) items = ⊥
  Noticed _ _ _ _ = Unit {0}

module _ (C : ActorCode) (Q : Fifo (Item C)) where
  -- The loop has not yet found the mailbox empty, or has an item in flight.
  abbrev pub Looks : State C Q → Type 0
  Looks s = LooksAt s.pc s.context.current

  abbrev pub Told : State C Q → Type 0
  Told s = Noticed s.pc s.context.flag s.context.current (Q.contents s.context.items)

  abbrev pub Tells : Outcome (State C Q) → Type 0
  Tells panic = Unit {0}
  Tells (done t) = Told t

  module _ (items : Q.Queue) (flag : ActorState) (b : Bool) (world : C.World) (sent : List (Sent C))
      (f : Bool) (actor : Option C.Self) where
    abbrev state : Pc C → Option (Item C) → State C Q
    state pc current = state_of C Q items flag b world sent pc f actor current

    leave-Told :
        (called : Bool) (current : Option (Item C))
        → Noticed leaving flag current (Q.contents items)
        → Tells (leave C Q called (state leaving current))
    leave-Told true none h = h
    leave-Told true (some item) h = tt
    leave-Told false current h = kept flag current h
      where
        kept :
            (to : ActorState) (current : Option (Item C))
            → Noticed leaving flag current (Q.contents items)
            → Heard to current (Q.contents items)
        kept ready current h = tt
        kept waiting none h = h
        kept idle none h = h
        kept _ (some item) h = tt

    if_ready-Told :
        (to : ActorState) (current : Option (Item C))
        → Heard flag current (Q.contents items)
        → Tells (if_ready C Q to (state resting current))
    if_ready-Told ready current h = tt
    if_ready-Told waiting current h = h
    if_ready-Told idle current h = h

    dequeued-Told : Tells (dequeued C Q (Q.dequeue items) (state dequeuing none))
    dequeued-Told = elim (Q.dequeue_lem items) [
      | inl (empty, no_item) ↦ rw no_item empty
      | inr (next, q, ok, rest) ↦ rw ok tt
    ]

    take_actor-Told :
        (cell : Option C.Self) (item : Item C)
        → Tells (take_actor C Q cell item (state polling (some item)))
    take_actor-Told none item = tt
    take_actor-Told (some self) item = tt

    poll_item-Told :
        (takes : Bool) (item : Item C)
        → takes_actor item ≡ takes
        → Tells (poll_item C Q (some item) (state polling (some item)))
    poll_item-Told true item e = rw e (take_actor-Told actor item)
    poll_item-Told false item e = rw e tt

    polled_item-Told :
        (pc : Pc C) (current : Option (Item C)) (o : Outcome (Step C))
        → Tells (polled_item C Q (state pc current) o)
    polled_item-Told pc current panic = tt
    polled_item-Told pc current (done r) = elim (Bool-cases r.is_ready) [
      | inl e ↦ rw e tt
      | inr e ↦ rw e tt
    ]

    exec_at-Told :
        (pc : Pc C) (current : Option (Item C))
        → Noticed pc flag current (Q.contents items)
        → Tells (exec C Q (state pc current))
    unfolding exec
    exec_at-Told resting current h = if_ready-Told flag current h
    exec_at-Told checking none h = tt
    exec_at-Told checking (some item) h = tt
    exec_at-Told dequeuing none h = dequeued-Told
    exec_at-Told (installing item) current h = tt
    exec_at-Told marking (some item) h = tt
    exec_at-Told clearing none h = h
    exec_at-Told polling none h = h
    exec_at-Told polling (some item) h = poll_item-Told (takes_actor item) item refl
    exec_at-Told (running self item) current h = polled_item-Told (running self item) current _
    exec_at-Told dropping none h = tt
    exec_at-Told dropping (some item) h = tt
    exec_at-Told leaving current h = leave-Told b current h
    exec_at-Told _ current h = absurd h

  pub exec-Told : (s : State C Q) → Told s → Tells (exec C Q s)
  exec-Told s h =
      exec_at-Told s.context.items s.context.flag s.polled s.world s.sent s.context.in_flight
        s.context.actor s.pc s.context.current h

  pub of_done : {o : Outcome (State C Q)} {t : State C Q} → o ≡ done t → Tells o → Told t
  of_done {o} {t} e g = rw e at g

  -- An arrival makes the actor READY, which is heard where the executor still looks.
  pub ready-Told :
      (pc : Pc C) (flag : ActorState) (current : Option (Item C)) (items more : List (Item C))
      → LooksAt pc current
      → Noticed pc flag current items
      → Noticed pc ready current more
  ready-Told resting flag current items more l h = tt
  ready-Told polling flag (some item) items more l h = tt
  ready-Told leaving flag (some item) items more l h = tt
  ready-Told marking flag (some item) items more l h = tt
  ready-Told dequeuing flag none items more l h = tt
  ready-Told checking flag current items more l h = tt
  ready-Told (installing item) flag current items more l h = tt
  ready-Told (running self item) flag current items more l h = tt
  ready-Told dropping flag current items more l h = tt
  ready-Told clearing flag current items more l h = absurd l
  ready-Told polling flag none items more l h = absurd l
  ready-Told leaving flag none items more l h = absurd l
  ready-Told _ flag current items more l h = absurd h

  -- A waker leaves the mailbox as it was.
  pub woken-Told :
      (pc : Pc C) (flag : ActorState) (current : Option (Item C)) (items : List (Item C))
      → Noticed pc flag current items
      → Noticed pc ready current items
  woken-Told resting flag current items h = tt
  woken-Told clearing flag none items h = h
  woken-Told polling flag none items h = h
  woken-Told leaving flag none items h = h
  woken-Told polling flag (some item) items h = tt
  woken-Told leaving flag (some item) items h = tt
  woken-Told marking flag (some item) items h = tt
  woken-Told dequeuing flag none items h = tt
  woken-Told checking flag current items h = tt
  woken-Told (installing item) flag current items h = tt
  woken-Told (running self item) flag current items h = tt
  woken-Told dropping flag current items h = tt
  woken-Told _ flag current items h = absurd h
