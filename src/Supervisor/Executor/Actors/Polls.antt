-- ===== src/Supervisor/Executor/Actors/Polls.antt =====
-- The poll of one actor among others: what it leaves of its mailbox, and what it may post.
use drogue_device.Base.{
  ℕ, zero, suc, ◌+◌, ◌≤◌, ◌≡◌, refl, some, Option, List, [], ◌∷◌, length, Outcome, done, panic,
  arith,
}
use drogue_device.Fifo.{Fifo}
use drogue_device.Actor.Code.{ActorCode}
use drogue_device.Actor.Item.{Item, Step, poll}
use drogue_device.Actor.Context.{ActorState, waiting, ready, Context, Polling, do_poll}
use drogue_device.Actor.Context.Order.{agenda, view, do_poll-Serves}
use drogue_device.Actor.Context.Safety.{IsSane, SaneServed, serve_agenda-Sane}
use drogue_device.Actor.Context.Rest.{
  RestServed, serve-Rest, ShortServed, serve_agenda-Short, WorldServed, serve-World,
}
use drogue_device.Supervisor.Executor.{state_at, store}
use drogue_device.Supervisor.Executor.Actors.{Mail, Polled, poll_context}
use drogue_device.Supervisor.Executor.Actors.Posts.{Fits, AllRoom, AllFit}

module _ (C : ActorCode) (Q : Fifo (Item C)) (M : Mail C) (count : ℕ) (rank : C.World → ℕ)
    (During : ℕ → C.World → Type 0) where
  -- `During i` holds of the world while actor `i` is polled. Each item that is polled pays from `rank`
  -- for what it posts, and an actor posts new items for others among the `count` actors, and wake-ups.
  pub record Frugal : Type 0 where
    pub begins : (i : ℕ) (w : C.World) → During i (M.begin i w)
    pub begins_empty : (i : ℕ) (w : C.World) → M.posts (M.begin i w) ≡ []
    pub begins_rank : (i : ℕ) (w : C.World) → rank (M.begin i w) ≤ rank w
    pub polls :
        (i : ℕ) (actor : Option C.Self) (item : Item C) (w : C.World) (s : Step C)
        → During i w
        → poll C actor item w ≡ done s
        → During i s.world × (rank s.world + length (M.posts s.world) ≤ rank w + length (M.posts w))
    pub fits : (i : ℕ) (w : C.World) → During i w → AllFit C Q count i (M.posts w)

  -- What actor `i` has posted is paid for from `budget`.
  abbrev pub Paid : (i budget : ℕ) → C.World → Type 0
  Paid i budget w = During i w × (rank w + length (M.posts w) ≤ budget)

  module _ (frugal : Frugal) where
    abbrev pub PolledWell : (i budget n count : ℕ) → List ActorState → Outcome (Polled C Q) → Type 0
    PolledWell i budget n count states o =
        (r : Polled C Q) × (o ≡ done r)
        × Fits C Q states r.0
        × AllRoom C Q n r.0
        × (length r.0 ≡ count)
        × Paid i budget r.1

    polls-Paid :
        (i budget : ℕ) (actor : Option C.Self) (item : Item C) (w : C.World) (s : Step C)
        → Paid i budget w
        → poll C actor item w ≡ done s
        → Paid i budget s.world
    polls-Paid i budget actor item w s p e =
        let (d, less) = frugal.polls i actor item w s p.0 e in (d, omega (arith, less, p.1))

    first-PolledWell :
        (i budget n : ℕ) (c : Context C Q) (cs : List (Context C Q)) (states : List ActorState)
        (world : C.World)
        → IsSane C Q c
        → Fits C Q states cs
        → AllRoom C Q n (c ∷ cs)
        → Paid i budget world
        → PolledWell i budget n
            (suc (length cs))
            (waiting ∷ states)
            (poll_context C Q zero (c ∷ cs) world)
    unfolding poll_context
    first-PolledWell i budget n c cs states world v f room p =
        let (o, e, same) = do_poll-Serves C Q (suc (length (agenda C Q c))) c world (omega arith) in
        ended o e
          (rw (← same) at
            (serve_agenda-Sane C Q c.actor c.current (Q.contents c.items) world v.owned v.fresh))
          (rw (← same) at (serve-Rest C (agenda C Q c) c.actor world))
          (rw (← same) at (serve_agenda-Short C c.current (Q.contents c.items) c.actor world))
          (rw (← same) at
            (serve-World C (Paid i budget) (polls-Paid i budget) (agenda C Q c) c.actor world p))
      where
        ended :
            (o : Outcome (Polling C Q))
            → do_poll C Q (suc (length (agenda C Q c))) c world ≡ some o
            → SaneServed C (view C Q o)
            → RestServed C (view C Q o)
            → ShortServed C (length (Q.contents c.items)) (view C Q o)
            → WorldServed C (Paid i budget) (polls-Paid i budget) (view C Q o)
            → PolledWell i budget n
                (suc (length cs))
                (waiting ∷ states)
                (poll_context C Q zero (c ∷ cs) world)
        ended panic e g h l w = absurd g
        ended (done r) e g h l w = (
          (r.context ∷ cs, r.world, r.sent),
          rw e refl,
          (record { owned = g.0; fresh = g.1 }, h, f),
          (omega (arith, l, room.0), room.1),
          refl,
          w,
        )

    -- A poll of an actor that is ready does not panic, and leaves it with nothing to do.
    pub poll_context-PolledWell :
        (i k budget n : ℕ) (states : List ActorState) (cs : List (Context C Q)) (world : C.World)
        → Fits C Q states cs
        → AllRoom C Q n cs
        → state_at k states ≡ ready
        → Paid i budget world
        → PolledWell i budget n (length cs) (store waiting k states) (poll_context C Q k cs world)
    unfolding poll_context
    poll_context-PolledWell i k budget n [] [] world f room e p = cc
    poll_context-PolledWell i zero budget n (state ∷ states) (c ∷ cs) world f room e p =
        first-PolledWell i budget n c cs states world f.0 f.2 room p
    poll_context-PolledWell i (suc k) budget n (state ∷ states) (c ∷ cs) world f room e p =
        let (r, ran, g, more, same, paid) =
          poll_context-PolledWell i k budget n states cs world f.2 room.1 e p in
        ((c ∷ r.0, r.1, r.2), rw ran refl, (f.0, f.1, g), (room.0, more), omega (arith, same), paid)
    poll_context-PolledWell i k budget n [] (c ∷ cs) world f room e p = absurd f
    poll_context-PolledWell i k budget n (state ∷ states) [] world f room e p = absurd f

    abbrev pub PaidPolled : (i budget : ℕ) → Outcome (Polled C Q) → Type 0
    PaidPolled i budget panic = Unit {0}
    PaidPolled i budget (done r) = Paid i budget r.1

    -- Any poll that ends is paid for.
    pub poll_context-PaidPolled :
        (i k budget : ℕ) (cs : List (Context C Q)) (world : C.World)
        → Paid i budget world
        → PaidPolled i budget (poll_context C Q k cs world)
    unfolding poll_context
    poll_context-PaidPolled i k budget [] world p = tt
    poll_context-PaidPolled i zero budget (c ∷ cs) world p =
        let (o, e, same) = do_poll-Serves C Q (suc (length (agenda C Q c))) c world (omega arith) in
        ended o e (
          rw (← same) at
            (serve-World C (Paid i budget) (polls-Paid i budget) (agenda C Q c) c.actor world p))
      where
        ended :
            (o : Outcome (Polling C Q))
            → do_poll C Q (suc (length (agenda C Q c))) c world ≡ some o
            → WorldServed C (Paid i budget) (polls-Paid i budget) (view C Q o)
            → PaidPolled i budget (poll_context C Q zero (c ∷ cs) world)
        ended panic e w = rw e tt
        ended (done r) e w = rw e w
    poll_context-PaidPolled i (suc k) budget (c ∷ cs) world p =
        behind (poll_context C Q k cs world) refl (poll_context-PaidPolled i k budget cs world p)
      where
        behind :
            (o : Outcome (Polled C Q))
            → poll_context C Q k cs world ≡ o
            → PaidPolled i budget o
            → PaidPolled i budget (poll_context C Q (suc k) (c ∷ cs) world)
        behind panic e w = rw e tt
        behind (done r) e w = rw e w
