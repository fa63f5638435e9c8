-- ===== src/Supervisor/Preemption/Safety.antt =====
-- Neither the executor nor an interrupt ever misses the actor, however they interleave.
use drogue_device.Base.{
  ◌≡◌, refl, inl, inr, Bool, true, false, Option, none, some, List, [], ◌∷◌, Outcome, done, panic,
  arith,
}
use drogue_device.Fifo.{Fifo}
use drogue_device.Actor.Code.{ActorCode}
use drogue_device.Actor.Item.{Item, on_lifecycle, Sent}
use drogue_device.Actor.Item.Safe.{IsFresh, AllFresh}
use drogue_device.Actor.Context.{ActorState, ready, Context, new, send}
use drogue_device.Actor.Context.Safety.{AllFresh-append}
use drogue_device.Supervisor.Preemption.{
  Pc, checking, State, first, exec, interrupted, Move, executes, dispatches, interrupts, arrives,
  wakes, changes, Reach, start, later,
}
use drogue_device.Supervisor.Preemption.Phases.{
  Phase, kept, not_empty, Inv, Goes, state_of, exec-Goes,
}

module _ (C : ActorCode) (Q : Fifo (Item C)) where
  module _ (on_interrupt : C.Self → C.World → C.Self × C.World) where
    interrupted_at-Goes :
        (items : Q.Queue) (flag : ActorState) (b : Bool) (world : C.World) (sent : List (Sent C))
        → AllFresh C (Q.contents items)
        → (pc : Pc C) (f : Bool) (actor : Option C.Self) (current : Option (Item C))
        → Phase C pc f actor current
        → Goes C Q
            (interrupted C Q on_interrupt (state_of C Q items flag b world sent pc f actor current))
    unfolding interrupted
    interrupted_at-Goes items flag b world sent v pc true actor current h = record {
      phase = h;
      fresh = v;
    }
    interrupted_at-Goes items flag b world sent v pc false (some self) current h = record {
      phase = kept C pc self _ current h;
      fresh = v;
    }
    interrupted_at-Goes items flag b world sent v pc false none current h =
        absurd (not_empty C pc current h)

  interrupted-Goes :
      (on_interrupt : C.Self → C.World → C.Self × C.World) (s : State C Q)
      → Inv C Q s
      → Goes C Q (interrupted C Q on_interrupt s)
  interrupted-Goes on_interrupt s v =
      interrupted_at-Goes on_interrupt s.context.items s.context.flag s.polled s.world s.sent
        v.fresh s.pc s.context.in_flight s.context.actor s.context.current v.phase

  of_done : {o : Outcome (State C Q)} {t : State C Q} → o ≡ done t → Goes C Q o → Inv C Q t
  of_done {o} {t} e g = rw e at g

  new-Inv : (actor : C.Self) (world : C.World) → Inv C Q (first C Q actor world)
  unfolding new
  new-Inv actor world = record { phase = tt; fresh = rw Q.contents-empty tt }

  send-Inv :
      (item : Item C) (s : State C Q) {c : Context C Q} (pc : Pc C) (b : Bool)
      → IsFresh C item
      → AllFresh C (Q.contents s.context.items)
      → send C Q item s.context ≡ done c
      → Phase C pc s.context.in_flight s.context.actor s.context.current
      → Inv C Q (record s { context = c; pc = pc; polled = b })
  unfolding send
  send-Inv item s {c} pc b f v e h = elim (Q.enqueue_lem item s.context.items) [
    | inl (room, (q, ok, back)) ↦
        let sent : c ≡ record s.context { items = q; flag = ready } = ground (arith, e, ok) in
        rw sent (record {
          phase = h;
          fresh = rw back (AllFresh-append C (Q.contents s.context.items) (item ∷ []) v (f, tt));
        })
    | inr (full, no_room) ↦ ground (arith, e, no_room)
  ]

  abbrev pub Runs : Outcome (State C Q) → Type 0
  Runs o = (t : State C Q) × (o ≡ done t)

  Goes-Runs : (o : Outcome (State C Q)) → Goes C Q o → Runs o
  Goes-Runs (done t) g = (t, refl)
  Goes-Runs panic g = absurd g

  module _ (on_interrupt : C.Self → C.World → C.Self × C.World) {Allowed : State C Q → Type 0} where
    Move-Inv : {s t : State C Q} → Move C Q on_interrupt Allowed s t → Inv C Q s → Inv C Q t
    Move-Inv {s} (executes e) v = of_done e (exec-Goes C Q s v)
    Move-Inv {s} (dispatches event e ok) v =
        send-Inv (on_lifecycle event false none) s checking false tt v.fresh ok (rw e at v.phase)
    Move-Inv {s} (interrupts e) v = of_done e (interrupted-Goes on_interrupt s v)
    Move-Inv {s} (arrives item f a ok) v = send-Inv item s s.pc s.polled f v.fresh ok v.phase
    Move-Inv wakes v = record { phase = v.phase; fresh = v.fresh }
    Move-Inv (changes world) v = record { phase = v.phase; fresh = v.fresh }

    Reach-Inv : {s : State C Q} → Reach C Q on_interrupt Allowed s → Inv C Q s
    Reach-Inv (start actor world) = new-Inv actor world
    Reach-Inv (later r move) = Move-Inv move (Reach-Inv r)

    -- However the executor's accesses to an actor interleave with its interrupts, with messages
    -- that arrive, with wakers, with lifecycle events and with changes of the shared state: in
    -- every state that can be reached, the next step of the executor goes through, and so does an
    -- interrupt of the actor. Neither ever finds the actor missing from its cell.
    pub Reach-Runs :
        {s : State C Q}
        → Reach C Q on_interrupt Allowed s
        → Runs (exec C Q s) × Runs (interrupted C Q on_interrupt s)
    Reach-Runs {s} r =
        let v = Reach-Inv r in
        (Goes-Runs _ (exec-Goes C Q s v), Goes-Runs _ (interrupted-Goes on_interrupt s v))
