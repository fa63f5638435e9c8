-- ===== src/Supervisor/Preemption/Refine.antt =====
-- Undisturbed, the accesses of the executor add up to the loop of Actor.Context.
use drogue_device.Base.{
  ℕ, zero, suc, ◌<◌, ◌≡◌, refl, sym, inl, inr, Bool, true, false, Option, none, some, List, ◌++◌,
  length, Outcome, done, panic, if◌then◌else◌,
}
use mathlib.Core.List.{append_assoc, append-nil}
use mathlib.Core.Path.{subst}
use drogue_device.Fifo.{Fifo}
use drogue_device.Actor.Code.{ActorCode}
use drogue_device.Actor.Item.{Item, on_lifecycle, on_notify, on_request, Sent, Step, poll}
use drogue_device.Actor.Context.{
  Context, Polling, do_poll, next_item, next_for, poll_current, after_ready, after_poll, also_sent,
}
use drogue_device.Actor.Context.Order.{agenda, do_poll-Serves}
use drogue_device.Supervisor.Preemption.{
  Pc, checking, dequeuing, installing, marking, clearing, polling, running, dropping, leaving,
  State, takes_actor, polled_item, exec, exec_times,
}

module _ (C : ActorCode) (Q : Fifo (Item C)) (b : Bool) where
  abbrev pub loop : Pc C → Context C Q → C.World → List (Sent C) → State C Q
  loop pc c world sent = record { context = c; pc = pc; polled = b; world = world; sent = sent }

  -- The state at the end of the loop.
  abbrev pub ended : List (Sent C) → Outcome (Polling C Q) → Outcome (State C Q)
  ended sent panic = panic
  ended sent (done p) = done (loop leaving p.context p.world (sent ++ p.sent))

  abbrev pub Ends : State C Q → Outcome (State C Q) → Type 0
  Ends s o = (n : ℕ) × (exec_times C Q n s ≡ o)

  step-Ends :
      (s : State C Q) {t : State C Q} (o : Outcome (State C Q))
      → exec C Q s ≡ done t
      → Ends t o
      → Ends s o
  unfolding exec_times
  step-Ends s o e (n, f) = (suc n, rw e f)

  panic-Ends : (s : State C Q) → exec C Q s ≡ panic → Ends s panic
  unfolding exec_times
  panic-Ends s e = (1, rw e refl)

  here-Ends : (s : State C Q) → Ends s (done s)
  unfolding exec_times
  here-Ends s = (0, refl)

  -- From `s` the executor comes to the end that `r` gives.
  abbrev Follows : Option (Outcome (Polling C Q)) → State C Q → List (Sent C) → Type 0
  Follows none s sent = Unit {0}
  Follows (some o) s sent = Ends s (ended sent o)

  step-Follows :
      (r : Option (Outcome (Polling C Q))) (s : State C Q) {t : State C Q} (sent : List (Sent C))
      → exec C Q s ≡ done t
      → Follows r t sent
      → Follows r s sent
  step-Follows none s sent e h = tt
  step-Follows (some o) s sent e h = step-Ends s (ended sent o) e h

  also_sent-Follows :
      (r : Option (Outcome (Polling C Q))) (s : State C Q) (sent more : List (Sent C))
      → Follows r s (sent ++ more)
      → Follows (also_sent C Q more r) s sent
  also_sent-Follows none s sent more h = tt
  also_sent-Follows (some panic) s sent more h = h
  also_sent-Follows (some (done p)) s sent more h = rw (← (append_assoc sent more p.sent)) h

  module _ (again : Context C Q → C.World → Option (Outcome (Polling C Q)))
      (k : (d : Context C Q) (w : C.World) (more : List (Sent C))
        → Follows (again d w) (loop checking d w more) more)
      (c : Context C Q) (sent : List (Sent C)) where
    after_ready-Follows :
        (r : Step C) (is_ready : Bool)
        → Follows
            (after_ready C Q again c r is_ready)
            (loop
              (if is_ready then dropping else leaving)
              (record c { actor = r.actor; current = some r.item })
              r.world
              (sent ++ r.sent))
            sent
    unfolding after_ready exec
    after_ready-Follows r true =
        also_sent-Follows (again (record c { actor = r.actor; current = none }) r.world) _ sent
          r.sent
          (step-Follows (again (record c { actor = r.actor; current = none }) r.world) _
            (sent ++ r.sent) refl
            (k (record c { actor = r.actor; current = none }) r.world (sent ++ r.sent)))
    after_ready-Follows r false = here-Ends _

    after_poll-Follows :
        (s : State C Q) (r : Outcome (Step C))
        → exec C Q s ≡ polled_item C Q (loop checking c s.world sent) r
        → Follows (after_poll C Q again c r) s sent
    unfolding after_poll
    after_poll-Follows s panic e = panic-Ends s e
    after_poll-Follows s (done r) e =
        step-Follows (after_ready C Q again c r r.is_ready) s sent e
          (after_ready-Follows r r.is_ready)

    -- An item that takes the actor panics without it.
    missing-poll :
        (item : Item C) (world : C.World) → takes_actor item ≡ true → poll C none item world ≡ panic
    unfolding poll
    missing-poll (on_lifecycle event false d) world e = refl
    missing-poll (on_lifecycle event true d) world e = cc
    missing-poll (on_notify (some message) d) world e = refl
    missing-poll (on_notify none d) world e = cc
    missing-poll (on_request (some message) sender d) world e = refl
    missing-poll (on_request none sender d) world e = cc

    poll_item-Follows :
        (item : Item C) (world : C.World) (takes : Bool) (cell : Option C.Self)
        → c.current ≡ some item
        → takes_actor item ≡ takes
        → c.actor ≡ cell
        → Follows
            (after_poll C Q again c (poll C c.actor item world))
            (loop polling c world sent)
            sent
    unfolding exec after_poll
    poll_item-Follows item world false cell e t a = step-Follows _ _ sent (rw (e, t) refl) (
        after_poll-Follows (loop (running none item) c world sent) (poll C c.actor item world) refl)
    poll_item-Follows item world true none e t a =
        rw (a, missing-poll item world t) (panic-Ends _ (rw (e, t) refl))
    poll_item-Follows item world true (some self) e t a =
        step-Follows _ _ sent (rw (e, t, a) refl) (
          after_poll-Follows
            (loop (running (some self) item) (record c { actor = none }) world sent)
            (poll C c.actor item world) (rw a refl))

  module _ (again : Context C Q → C.World → Option (Outcome (Polling C Q)))
      (k : (d : Context C Q) (w : C.World) (more : List (Sent C))
        → Follows (again d w) (loop checking d w more) more)
      (sent : List (Sent C)) where
    abbrev Continues : State C Q → Context C Q → C.World → Type 0
    Continues s n world = Follows (poll_current C Q again n n.current world) s sent

    item-Continues :
        (c : Context C Q) (item : Item C) (world : C.World)
        → c.current ≡ some item
        → Continues (loop polling c world sent) c world
    unfolding poll_current
    item-Continues c item world e =
        subst
          (λ current.
            Follows (poll_current C Q again c current world) (loop polling c world sent) sent)
          (sym e)
          (poll_item-Follows again k c sent item world (takes_actor item) c.actor e refl refl)

    none-Continues :
        (c : Context C Q) (world : C.World)
        → c.current ≡ none
        → Continues (loop polling c world sent) c world
    unfolding poll_current exec
    none-Continues c world e =
        subst
          (λ current.
            Follows (poll_current C Q again c current world) (loop polling c world sent) sent)
          (sym e)
          (step-Ends _ {t = loop leaving c world sent} _ (rw e refl)
            (rw (append-nil sent) (here-Ends _)))

    step-Continues :
        {t : State C Q} (s : State C Q) (n : Context C Q) (world : C.World)
        → exec C Q s ≡ done t
        → Continues t n world
        → Continues s n world
    step-Continues s n world e h =
        step-Follows (poll_current C Q again n n.current world) s sent e h

    round-Continues :
        (c : Context C Q) (current : Option (Item C)) (world : C.World)
        → c.current ≡ current
        → Continues (loop checking c world sent) (next_for C Q c current) world
    unfolding exec
    round-Continues c (some item) world e =
        step-Continues {t = loop polling c world sent} _ c world (rw e refl)
          (item-Continues c item world e)
    round-Continues c none world e = elim (Q.dequeue_lem c.items) [
      | inl (empty, d) ↦
          let n : Context C Q = record c { in_flight = false } in
          rw d (
            step-Continues {t = loop dequeuing c world sent} _ n world (rw e refl) (
              step-Continues {t = loop clearing c world sent} _ n world (rw d refl) (
                step-Continues {t = loop polling n world sent} _ n world refl
                  (none-Continues n world e))))
      | inr (item, q, d, full) ↦
          let taken : Context C Q = record c { items = q } in
          let current : Context C Q = record taken { current = some item } in
          let n : Context C Q = record current { in_flight = true } in
          rw d (
            step-Continues {t = loop dequeuing c world sent} _ n world (rw e refl) (
              step-Continues {t = loop (installing item) taken world sent} _ n world (rw d refl) (
                step-Continues {t = loop marking current world sent} _ n world refl (
                  step-Continues {t = loop polling n world sent} _ n world refl
                    (item-Continues n item world refl)))))
    ]

  do_poll-Follows :
      (fuel : ℕ) (c : Context C Q) (world : C.World) (sent : List (Sent C))
      → Follows (do_poll C Q fuel c world) (loop checking c world sent) sent
  unfolding do_poll next_item
  do_poll-Follows zero c world sent = tt
  do_poll-Follows (suc fuel) c world sent =
      round-Continues (do_poll C Q fuel) (do_poll-Follows fuel) sent c c.current world refl

  -- Undisturbed, the single accesses of the executor add up to do_poll: from the head of the loop,
  -- with more fuel than there are items in flight or in the mailbox, do_poll has a result, and
  -- after some number of steps the executor is at the end of the loop with that result (the fields
  -- of the context, the shared state and what was sent), or panics where do_poll panics.
  pub exec_times-do_poll :
      (fuel : ℕ) (c : Context C Q) (world : C.World) (sent : List (Sent C))
      → length (agenda C Q c) < fuel
      → (o : Outcome (Polling C Q)) × (do_poll C Q fuel c world ≡ some o)
        × Ends (loop checking c world sent) (ended sent o)
  exec_times-do_poll fuel c world sent l =
      let (o, e, same) = do_poll-Serves C Q fuel c world l in
      (o, e, rw e at (do_poll-Follows fuel c world sent))
