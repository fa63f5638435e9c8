-- ===== src/Actor/Context/Blocked.antt =====
-- An actor whose request waits for something that only its own mailbox can bring.
use drogue_device.Base.{
  ℕ, zero, suc, ◌+◌, ◌≤◌, ◌<◌, ◌≡◌, refl, sym, ap, ◌∙◌, inl, inr, Option, none, some, List, [], ◌∷◌,
  ◌++◌, length, length-append, Outcome, done, arith,
}
use mathlib.Core.List.{append_assoc, append-nil}
use drogue_device.Fifo.{Fifo}
use drogue_device.Actor.Code.{ActorCode, pending}
use drogue_device.Actor.Item.{Item, on_request, poll}
use drogue_device.Actor.Context.{
  ActorState, Context, Polling, Event, arrives, polls, do_poll, send, happen, happen_all, next_item,
  poll_current, after_poll, after_ready,
}

module _ {C : ActorCode} where
  abbrev pub arrivals : List (Event C) → List (Item C)
  arrivals [] = []
  arrivals (arrives item ∷ es) = item ∷ arrivals es
  arrivals (polls ∷ es) = arrivals es

module _ (C : ActorCode) (Q : Fifo (Item C)) (Waits : C.AskTask → C.World → Type 0) where
  -- The request of `sender` is in flight, and waits.
  pub record IsBlocked (sender : ℕ) (c : Context C Q) (world : C.World) : Type 0 where
    pub task : C.AskTask
    pub current : c.current ≡ some (on_request none sender (some task))
    pub waits : Waits task world

  abbrev pub Outcomes : ℕ → List (Item C) → Option (Outcome (Polling C Q)) → Type 0
  Outcomes sender items r =
      (p : Polling C Q) × (r ≡ some (done p))
      × IsBlocked sender p.context p.world
      × (Q.contents p.context.items ≡ items)
      × (p.sent ≡ [])

  module _
      (stays : (task : C.AskTask) (world : C.World)
        → Waits task world
        → (task' : C.AskTask) × (world' : C.World) × (C.poll_ask task world
            ≡ (pending task', world'))
          × Waits task' world') where
    polls-IsBlocked :
        (fuel sender : ℕ) (c : Context C Q) (world : C.World)
        → 0 < fuel
        → IsBlocked sender c world
        → Outcomes sender (Q.contents c.items) (do_poll C Q fuel c world)
    unfolding do_poll next_item poll_current poll after_poll after_ready
    polls-IsBlocked zero sender c world h b = absurd (omega arith)
    polls-IsBlocked (suc fuel) sender c world h b =
        let (task', world', e, w) = stays b.task world b.waits in
        (
          record {
            context = record c { current = some (on_request none sender (some task')) };
            world = world';
            sent = [];
          },
          rw (b.current, e),
          record { task = task'; current = refl; waits = w },
          refl,
          refl,
        )

    arrives-IsBlocked :
        (fuel sender : ℕ) (item : Item C) (c : Context C Q) (world : C.World)
        → length (Q.contents c.items) < Q.capacity
        → IsBlocked sender c world
        → Outcomes sender (Q.contents c.items ++ item ∷ []) (happen C Q fuel (arrives item) c world)
    unfolding happen send
    arrives-IsBlocked fuel sender item c world room b = elim (Q.enqueue_lem item c.items) [
      | inl (r, (q, ok, back)) ↦ (
        record {
          context = record c { items = q; flag = ActorState.ready };
          world = world;
          sent = [];
        },
        rw (ok, happen),
        record { task = b.task; current = b.current; waits = b.waits },
        back,
        refl,
      )
      | inr (full, no_room) ↦ absurd (omega arith)
    ]

    event-IsBlocked :
        (fuel sender : ℕ) (event : Event C) (c : Context C Q) (world : C.World)
        → 0 < fuel
        → length (Q.contents c.items) + length (arrivals (event ∷ [])) ≤ Q.capacity
        → IsBlocked sender c world
        → Outcomes sender
            (Q.contents c.items ++ arrivals (event ∷ []))
            (happen C Q fuel event c world)
    unfolding happen
    event-IsBlocked fuel sender (arrives item) c world h room b =
        arrives-IsBlocked fuel sender item c world (omega arith) b
    event-IsBlocked fuel sender polls c world h room b =
        rw append-nil (polls-IsBlocked fuel sender c world h b)

    arrivals-cons :
        (event : Event C) (es : List (Event C))
        → arrivals (event ∷ es) ≡ arrivals (event ∷ []) ++ arrivals es
    arrivals-cons (arrives item) es = refl
    arrivals-cons polls es = refl

    -- If every poll of the deferred request in flight is pending for as long as a condition on the
    -- shared state holds, and that poll keeps the condition, then it stays in flight whatever
    -- arrives and however often the actor is polled, as long as the mailbox has room: nothing is
    -- answered, and every arrival stays in the mailbox in order.
    pub happen_all-IsBlocked :
        (fuel sender : ℕ) (es : List (Event C)) (c : Context C Q) (world : C.World)
        → 0 < fuel
        → length (Q.contents c.items) + length (arrivals es) ≤ Q.capacity
        → IsBlocked sender c world
        → Outcomes sender (Q.contents c.items ++ arrivals es) (happen_all C Q fuel es c world)
    unfolding happen_all
    happen_all-IsBlocked fuel sender [] c world h room b =
        (record { context = c; world = world; sent = [] }, refl, b, sym (append-nil _), refl)
    happen_all-IsBlocked fuel sender (e ∷ es) c world h room b =
        let count =
          ap length (arrivals-cons e es) ∙ length-append (arrivals (e ∷ [])) (arrivals es) in
        let (p, eq, blocked, left, none_sent) =
          event-IsBlocked fuel sender e c world h (omega (arith, count)) b in
        let left_count = ap length left ∙ length-append (Q.contents c.items) (arrivals (e ∷ [])) in
        let (q, eq', blocked', left', none_sent') =
          happen_all-IsBlocked fuel sender es p.context p.world h (omega (arith, count, left_count))
            blocked in
        (
          record q { sent = p.sent ++ q.sent },
          rw (eq, eq'),
          record { task = blocked'.task; current = blocked'.current; waits = blocked'.waits },
          left'
              ∙ ap (λ l. l ++ arrivals es) left
              ∙ append_assoc (Q.contents c.items) (arrivals (e ∷ [])) (arrivals es)
              ∙ ap (◌++◌ (Q.contents c.items)) (sym (arrivals-cons e es)),
          rw (none_sent, none_sent'),
        )
