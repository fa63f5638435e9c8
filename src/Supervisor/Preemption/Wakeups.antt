-- ===== src/Supervisor/Preemption/Wakeups.antt =====
-- A message that arrives while the loop of `do_poll` is on its way out is lost to the executor, and one
-- that arrives at any other time is not.
use drogue_device.Base.{
  ◌<◌, ◌≡◌, refl, ◌⊎◌, inl, inr, Bool, true, false, Option, none, some, [], ◌∷◌, ◌++◌, length, done,
  arith,
}
use drogue_device.Fifo.{Fifo}
use drogue_device.Actor.Code.{ActorCode}
use drogue_device.Actor.Item.{Item}
use drogue_device.Actor.Item.Safe.{IsFresh}
use drogue_device.Actor.Context.{ActorState, idle, waiting, ready, Context, new, send}
use drogue_device.Supervisor.Preemption.{
  resting, leaving, State, exec, interrupted, Move, executes, dispatches, interrupts, arrives,
  wakes, changes, Reach, start, later,
}
use drogue_device.Supervisor.Preemption.Notices.{
  Looks, Heard, Told, Tells, exec-Told, of_done, ready-Told, woken-Told,
}

module _ (C : ActorCode) (Q : Fifo (Item C)) where
  abbrev pub Always : State C Q → Type 0
  Always s = Unit {0}

  module _ (on_interrupt : C.Self → C.World → C.Self × C.World) where
    interrupted-Told : (s : State C Q) → Told C Q s → Tells C Q (interrupted C Q on_interrupt s)
    unfolding interrupted
    interrupted-Told s h = go s.context.in_flight s.context.actor refl refl
      where
        go :
            (f : Bool) (actor : Option C.Self)
            → s.context.in_flight ≡ f
            → s.context.actor ≡ actor
            → Tells C Q (interrupted C Q on_interrupt s)
        go true actor e e' = rw e h
        go false none e e' = rw (e, e') tt
        go false (some self) e e' = rw (e, e') h

    send-Told :
        (item : Item C) (s : State C Q) {c : Context C Q}
        → Looks C Q s
        → Told C Q s
        → send C Q item s.context ≡ done c
        → Told C Q (record s { context = c })
    unfolding send
    send-Told item s {c} l h e = elim (Q.enqueue_lem item s.context.items) [
      | inl (room, (q, ok, back)) ↦
          let sent : c ≡ record s.context { items = q; flag = ready } = ground (arith, e, ok) in
          rw sent (ready-Told C Q s.pc s.context.flag s.context.current _ _ l h)
      | inr (full, no_room) ↦ ground (arith, e, no_room)
    ]

    Move-Told : {s t : State C Q} → Move C Q on_interrupt (Looks C Q) s t → Told C Q s → Told C Q t
    Move-Told {s} (executes e) h = of_done C Q e (exec-Told C Q s h)
    Move-Told (dispatches event e ok) h = tt
    Move-Told {s} (interrupts e) h = of_done C Q e (interrupted-Told s h)
    Move-Told {s} (arrives item f l ok) h = send-Told item s l h ok
    Move-Told {s} wakes h =
        woken-Told C Q s.pc s.context.flag s.context.current (Q.contents s.context.items) h
    Move-Told (changes world) h = h

    Reach-Told : {s : State C Q} → Reach C Q on_interrupt (Looks C Q) s → Told C Q s
    unfolding new
    Reach-Told (start actor world) = tt
    Reach-Told (later r move) = Move-Told move (Reach-Told r)

    -- If messages arrive only while the executor is at rest, is in the loop and has not yet found
    -- the mailbox empty, or has an item in flight, then in every state that can be reached in
    -- which the executor is at rest and no item is in flight, the flag is READY or the mailbox is
    -- empty: no message is left behind.
    pub Reach-resting :
        {s : State C Q}
        → Reach C Q on_interrupt (Looks C Q) s
        → s.pc ≡ resting
        → s.context.current ≡ none
        → (s.context.flag ≡ ready) ⊎ (Q.contents s.context.items ≡ [])
    Reach-resting {s} r e none_left =
        heard s.context.flag refl (rw (e, none_left) at (Reach-Told r))
      where
        heard :
            (to : ActorState)
            → s.context.flag ≡ to
            → Heard to none (Q.contents s.context.items)
            → (s.context.flag ≡ ready) ⊎ (Q.contents s.context.items ≡ [])
        heard ready e h = inl e
        heard waiting e h = inr h
        heard idle e h = inr h

    -- From any state that can be reached in which the executor has left the loop of do_poll,
    -- called by Supervised::poll, and has not stored the flag yet, a message that arrives then,
    -- and fits, leads to a state with the executor at rest, the message last in the mailbox and
    -- the flag WAITING, which no step of the executor changes: the message is not handled until
    -- something else stores READY.
    pub leaving-arrives :
        {s : State C Q} (item : Item C)
        → Reach C Q on_interrupt Always s
        → s.pc ≡ leaving
        → s.polled ≡ true
        → IsFresh C item
        → length (Q.contents s.context.items) < Q.capacity
        → (t : State C Q) × Reach C Q on_interrupt Always t
          × (t.pc ≡ resting)
          × (t.context.flag ≡ waiting)
          × (Q.contents t.context.items ≡ Q.contents s.context.items ++ item ∷ [])
          × (exec C Q t ≡ done t)
    unfolding exec send
    leaving-arrives {s} item r e called f room = elim (Q.enqueue_lem item s.context.items) [
      | inl (fits, (q, ok, back)) ↦
          let c : Context C Q = record s.context { items = q; flag = ready } in
          let sent : send C Q item s.context ≡ done c = rw ok refl in
          let left = later (later r (arrives item f tt sent)) (executes (rw (e, called) refl)) in
          (
            record s { context = record c { flag = waiting }; pc = resting },
            left,
            refl,
            refl,
            back,
            refl,
          )
      | inr (full, no_room) ↦ absurd (omega arith)
    ]
