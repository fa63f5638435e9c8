-- ===== src/Supervisor/Preemption/Phases.antt =====
-- Where the actor is at each access of the executor, and that the executor's steps keep it so.
use drogue_device.Base.{
  ◌≡◌, refl, inl, inr, Bool, true, false, Option, none, some, List, ◌∷◌, Outcome, done, panic,
}
use drogue_device.Fifo.{Fifo}
use drogue_device.Actor.Code.{ActorCode}
use drogue_device.Actor.Item.{Item, on_lifecycle, on_notify, on_request, Sent, Step}
use drogue_device.Actor.Item.Safe.{
  IsFresh, IsDeferred, AllFresh, Good, GoodStep, poll-IsFresh, poll-IsDeferred,
}
use drogue_device.Actor.Context.{ActorState, idle, waiting, ready}
use drogue_device.Supervisor.Preemption.{
  Pc, resting, checking, dequeuing, installing, marking, clearing, polling, running, dropping,
  leaving, State, first, takes_actor, if_ready, leave, dequeued, polled_item, exec,
}

module _ (C : ActorCode) where
  -- Between two rounds of the loop: the cell is empty only under `in_flight`.
  abbrev pub Rests : Bool → Option C.Self → Option (Item C) → Type 0
  Rests in_flight (some self) none = Unit {0}
  Rests true none (some item) = IsDeferred C item
  Rests _ _ _ = ⊥

  -- What the fields are at each access.
  abbrev pub Phase : Pc C → Bool → Option C.Self → Option (Item C) → Type 0
  Phase resting f actor current = Rests f actor current
  Phase checking f actor current = Rests f actor current
  Phase leaving f actor current = Rests f actor current
  Phase dequeuing f (some self) none = Unit {0}
  Phase clearing f (some self) none = Unit {0}
  Phase (installing next) f (some self) none = IsFresh C next
  Phase marking f (some self) (some item) = IsFresh C item
  Phase polling f (some self) none = Unit {0}
  Phase polling true (some self) (some item) = IsFresh C item
  Phase polling true none (some item) = IsDeferred C item
  Phase (running (some self) item) true none current = IsFresh C item
  Phase (running none item) true none current = IsDeferred C item
  Phase dropping f (some self) (some item) = Unit {0}
  Phase _ _ _ _ = ⊥

  takes-IsFresh : (item : Item C) → IsFresh C item → takes_actor item ≡ true
  takes-IsFresh (on_lifecycle event false none) f = refl
  takes-IsFresh (on_notify (some message) none) f = refl
  takes-IsFresh (on_request (some message) sender none) f = refl
  takes-IsFresh _ f = absurd f

  takes-IsDeferred : (item : Item C) → IsDeferred C item → takes_actor item ≡ false
  takes-IsDeferred (on_lifecycle event true (some task)) f = refl
  takes-IsDeferred (on_notify none (some task)) f = refl
  takes-IsDeferred (on_request none sender (some task)) f = refl
  takes-IsDeferred _ f = absurd f

  -- With `in_flight` clear, the actor is in its cell, and its value does not matter.
  pub kept :
      (pc : Pc C) (self self' : C.Self) (current : Option (Item C))
      → Phase pc false (some self) current
      → Phase pc false (some self') current
  kept resting self self' none h = tt
  kept checking self self' none h = tt
  kept leaving self self' none h = tt
  kept dequeuing self self' none h = tt
  kept clearing self self' none h = tt
  kept (installing next) self self' none h = h
  kept marking self self' (some item) h = h
  kept polling self self' none h = tt
  kept dropping self self' (some item) h = tt
  kept (running (some actor) item) self self' current h = absurd h
  kept (running none item) self self' current h = absurd h
  kept _ self self' current h = absurd h

  pub not_empty : (pc : Pc C) (current : Option (Item C)) → Phase pc false none current → ⊥
  not_empty (running (some actor) item) current h = absurd h
  not_empty (running none item) current h = absurd h
  not_empty _ current h = absurd h

module _ (C : ActorCode) (Q : Fifo (Item C)) where
  pub record Inv (s : State C Q) : Type 0 where
    pub phase : Phase C s.pc s.context.in_flight s.context.actor s.context.current
    pub fresh : AllFresh C (Q.contents s.context.items)

  abbrev pub Goes : Outcome (State C Q) → Type 0
  Goes panic = ⊥
  Goes (done t) = Inv t

  module _ (items : Q.Queue) (flag : ActorState) (b : Bool) (world : C.World)
      (sent : List (Sent C)) where
    abbrev pub state_of : Pc C → Bool → Option C.Self → Option (Item C) → State C Q
    state_of pc f actor current = record {
      context = record {
        actor = actor;
        current = current;
        items = items;
        in_flight = f;
        flag = flag;
      };
      pc = pc;
      polled = b;
      world = world;
      sent = sent;
    }

  module _ (items : Q.Queue) (flag : ActorState) (b : Bool) (world : C.World) (sent : List (Sent C))
      (fresh : AllFresh C (Q.contents items)) where
    if_ready-Goes :
        (to : ActorState) (f : Bool) (actor : Option C.Self) (current : Option (Item C))
        → Rests C f actor current
        → Goes (if_ready C Q to (state_of items flag b world sent resting f actor current))
    if_ready-Goes ready f actor current h = record { phase = h; fresh = fresh }
    if_ready-Goes waiting f actor current h = record { phase = h; fresh = fresh }
    if_ready-Goes idle f actor current h = record { phase = h; fresh = fresh }

    leave-Goes :
        (called : Bool) (f : Bool) (actor : Option C.Self) (current : Option (Item C))
        → Rests C f actor current
        → Goes (leave C Q called (state_of items flag b world sent leaving f actor current))
    leave-Goes true f actor current h = record { phase = h; fresh = fresh }
    leave-Goes false f actor current h = record { phase = h; fresh = fresh }

    dequeued-Goes :
        (f : Bool) (self : C.Self)
        → Goes (
            dequeued C Q
              (Q.dequeue items)
              (state_of items flag b world sent dequeuing f (some self) none))
    dequeued-Goes f self = elim (Q.dequeue_lem items) [
      | inl (empty, no_item) ↦ rw no_item (record { phase = tt; fresh = fresh })
      | inr (next, q, ok, first) ↦
          let both : AllFresh C (next ∷ Q.contents q) = rw first at fresh in
          rw ok (record { phase = both.0; fresh = both.1 })
    ]

    polled_item-Goes :
        (pc : Pc C) (actor : Option C.Self) (current : Option (Item C)) (r : Outcome (Step C))
        → GoodStep C r
        → Goes (polled_item C Q (state_of items flag b world sent pc true actor current) r)
    polled_item-Goes pc actor current panic g = g
    polled_item-Goes pc actor current (done r) g = left r.is_ready r.actor refl refl g
      where
        left :
            (is_ready : Bool) (self : Option C.Self)
            → r.is_ready ≡ is_ready
            → r.actor ≡ self
            → Good C is_ready self r.item
            → Goes
                (polled_item C Q (state_of items flag b world sent pc true actor current) (done r))
        left true (some self) e e' h = record { phase = rw (e, e') tt; fresh = fresh }
        left false none e e' h = record { phase = rw (e, e') h; fresh = fresh }
        left true none e e' h = absurd h
        left false (some self) e e' h = absurd h

    exec_at-Goes :
        (pc : Pc C) (f : Bool) (actor : Option C.Self) (current : Option (Item C))
        → Phase C pc f actor current
        → Goes (exec C Q (state_of items flag b world sent pc f actor current))
    unfolding exec
    exec_at-Goes resting f actor current h = if_ready-Goes flag f actor current h
    exec_at-Goes checking f (some self) none h = record { phase = tt; fresh = fresh }
    exec_at-Goes checking true none (some item) h = record { phase = h; fresh = fresh }
    exec_at-Goes dequeuing f (some self) none h = dequeued-Goes f self
    exec_at-Goes (installing next) f (some self) none h = record { phase = h; fresh = fresh }
    exec_at-Goes marking f (some self) (some item) h = record { phase = h; fresh = fresh }
    exec_at-Goes clearing f (some self) none h = record { phase = tt; fresh = fresh }
    exec_at-Goes polling f (some self) none h = record { phase = tt; fresh = fresh }
    exec_at-Goes polling true (some self) (some item) h =
        rw (takes-IsFresh C item h) (record { phase = h; fresh = fresh })
    exec_at-Goes polling true none (some item) h =
        rw (takes-IsDeferred C item h) (record { phase = h; fresh = fresh })
    exec_at-Goes (running (some self) item) true none current h =
        polled_item-Goes (running (some self) item) none current _
          (poll-IsFresh C self item world h)
    exec_at-Goes (running none item) true none current h =
        polled_item-Goes (running none item) none current _ (poll-IsDeferred C item world h)
    exec_at-Goes dropping f (some self) (some item) h = record { phase = tt; fresh = fresh }
    exec_at-Goes leaving f actor current h = leave-Goes b f actor current h
    exec_at-Goes _ f actor current h = absurd h

  pub exec-Goes : (s : State C Q) → Inv s → Goes (exec C Q s)
  exec-Goes s v =
      exec_at-Goes s.context.items s.context.flag s.polled s.world s.sent v.fresh s.pc
        s.context.in_flight s.context.actor s.context.current v.phase
