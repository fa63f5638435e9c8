-- ===== src/Actor/Context/Order.antt =====
-- `do_poll` against plain recursion over the agenda of the actor.
use drogue_device.Base.{
  ℕ, zero, suc, ◌<◌, ◌≡◌, refl, ap, ◌⊎◌, inl, inr, Bool, true, false, Option, none, some, List, [],
  ◌∷◌, ◌++◌, length, Outcome, done, panic, arith,
}
use drogue_device.Fifo.{Fifo}
use drogue_device.Actor.Code.{ActorCode}
use drogue_device.Actor.Item.{Item, Sent, Step, poll}
use drogue_device.Actor.Context.{
  Context, Polling, do_poll, next_item, next_for, poll_current, after_ready, after_poll, also_sent,
}

-- What serving an agenda leaves: the item that is still pending, and those behind it.
pub record Served (C : ActorCode) : Type 0 where
  pub actor : Option C.Self
  pub current : Option (Item C)
  pub rest : List (Item C)
  pub world : C.World
  pub sent : List (Sent C)

module _ (C : ActorCode) where
  abbrev pub then_served : List (Sent C) → Outcome (Served C) → Outcome (Served C)
  then_served sent panic = panic
  then_served sent (done s) = done (record s { sent = sent ++ s.sent })

  unfoldable pub serve_ready :
      (Option C.Self → C.World → Outcome (Served C))
      → List (Item C)
      → Step C
      → Bool
      → Outcome (Served C)
  serve_ready go items s true = then_served s.sent (go s.actor s.world)
  serve_ready go items s false = done (record {
    actor = s.actor;
    current = some s.item;
    rest = items;
    world = s.world;
    sent = s.sent;
  })

  unfoldable pub serve_one :
      (Option C.Self → C.World → Outcome (Served C))
      → List (Item C)
      → Outcome (Step C)
      → Outcome (Served C)
  unfolding serve_ready
  serve_one go items panic = panic
  serve_one go items (done s) = serve_ready go items s s.is_ready

  -- One item after the other, each to its end before the next is looked at, up to the first that has
  -- to wait.
  unfoldable pub serve : List (Item C) → Option C.Self → C.World → Outcome (Served C)
  serve [] actor world =
      done (record { actor = actor; current = none; rest = []; world = world; sent = [] })
  serve (item ∷ items) actor world = serve_one (serve items) items (poll C actor item world)

module _ (C : ActorCode) (Q : Fifo (Item C)) where
  abbrev pub with_current : Option (Item C) → List (Item C) → List (Item C)
  with_current none items = items
  with_current (some item) items = item ∷ items

  -- The item in flight, then the mailbox, oldest first.
  abbrev pub agenda : Context C Q → List (Item C)
  agenda c = with_current c.current (Q.contents c.items)

  abbrev pub view : Outcome (Polling C Q) → Outcome (Served C)
  view panic = panic
  view (done p) = done (record {
    actor = p.context.actor;
    current = p.context.current;
    rest = Q.contents p.context.items;
    world = p.world;
    sent = p.sent;
  })

  abbrev Serves : Option (Outcome (Polling C Q)) → Outcome (Served C) → Type 0
  Serves r s = (o : Outcome (Polling C Q)) × (r ≡ some o) × (view o ≡ s)

  also_sent-Serves :
      (sent : List (Sent C)) (r : Option (Outcome (Polling C Q))) (s : Outcome (Served C))
      → Serves r s
      → Serves (also_sent C Q sent r) (then_served C sent s)
  also_sent-Serves sent r s (panic, e, v) = (panic, rw e, ground (arith, v))
  also_sent-Serves sent r s (done p, e, v) =
      (done (record p { sent = sent ++ p.sent }), rw e, rw (← v))

  module _ (again : Context C Q → C.World → Option (Outcome (Polling C Q))) (c : Context C Q)
      (items : List (Item C)) (e : Q.contents c.items ≡ items)
      (k : (actor : Option C.Self) (world : C.World)
        → Serves
            (again (record c { actor = actor; current = none }) world)
            (serve C items actor world)) where
    after_ready-Serves :
        (s : Step C) (b : Bool)
        → Serves (after_ready C Q again c s b) (serve_ready C (serve C items) items s b)
    unfolding after_ready serve_ready
    after_ready-Serves s true =
        also_sent-Serves s.sent (again (record c { actor = s.actor; current = none }) s.world)
          (serve C items s.actor s.world) (k s.actor s.world)
    after_ready-Serves s false = (_, refl, rw e)

    after_poll-Serves :
        (s : Outcome (Step C))
        → Serves (after_poll C Q again c s) (serve_one C (serve C items) items s)
    unfolding after_poll serve_one
    after_poll-Serves panic = (panic, refl, refl)
    after_poll-Serves (done s) = after_ready-Serves s s.is_ready

  -- What `next_item` makes current is the head of the agenda.
  pub NextIs : Context C Q → Context C Q → Type 0
  NextIs c n =
      ((agenda c ≡ []) × (n.current ≡ none) × (Q.contents n.items ≡ []) × (n.actor ≡ c.actor))
      ⊎ ((item : Item C) × (agenda c ≡ item ∷ Q.contents n.items)
          × (n.current ≡ some item)
          × (n.actor ≡ c.actor))

  next_for-NextIs :
      (c : Context C Q) (current : Option (Item C))
      → c.current ≡ current
      → NextIs c (next_for C Q c current)
  unfolding NextIs
  next_for-NextIs c (some item) e = inr (item, rw e, e, refl)
  next_for-NextIs c none e = elim (Q.dequeue_lem c.items) [
    | inl (empty, d) ↦ inl (rw e empty, rw d e, rw d empty, rw d)
    | inr (item, q, d, full) ↦ inr (item, rw (e, d) full, rw d, rw d)
  ]

  pub next_item-NextIs : (c : Context C Q) → NextIs c (next_item C Q c)
  unfolding next_item
  next_item-NextIs c = next_for-NextIs c c.current refl

  round-Serves :
      (fuel : ℕ) (c n : Context C Q) (world : C.World)
      → length (agenda c) < suc fuel
      → NextIs c n
      → ((d : Context C Q) (world : C.World)
          → length (agenda d) < fuel
          → Serves (do_poll C Q fuel d world) (serve C (agenda d) d.actor world))
      → Serves
          (poll_current C Q (do_poll C Q fuel) n n.current world)
          (serve C (agenda c) c.actor world)
  unfolding NextIs poll_current serve
  round-Serves fuel c n world h (inl (empty, none_left, left, same)) ih =
      rw (none_left, empty) (_, refl, ground (arith, left, same, none_left))
  round-Serves fuel c n world h (inr (item, head, cur, same)) ih =
      rw (cur, head, ← same)
        (after_poll-Serves (do_poll C Q fuel) n (Q.contents n.items) refl
          (λ actor w.
            ih (record n { actor = actor; current = none }) w (omega (arith, ap length head)))
          (poll C n.actor item world))

  -- With more fuel than there are items in flight or in the mailbox, do_poll ends, and what it
  -- leaves (the actor, the item in flight, the mailbox, the shared state, the answers) is what
  -- serving them one after the other leaves, oldest first, each to its end before the next is
  -- looked at, up to the first that is pending or panics.
  pub do_poll-Serves :
      (fuel : ℕ) (c : Context C Q) (world : C.World)
      → length (agenda c) < fuel
      → (o : Outcome (Polling C Q)) × (do_poll C Q fuel c world ≡ some o)
        × (view o ≡ serve C (agenda c) c.actor world)
  unfolding do_poll
  do_poll-Serves zero c world h = absurd (omega arith)
  do_poll-Serves (suc fuel) c world h =
      round-Serves fuel c (next_item C Q c) world h (next_item-NextIs c)
        (λ d w l. do_poll-Serves fuel d w l)
