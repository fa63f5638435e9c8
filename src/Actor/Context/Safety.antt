-- ===== src/Actor/Context/Safety.antt =====
-- `do_poll` finds the actor in its cell whenever it needs it, and keeps it so.
use drogue_device.Base.{
  ℕ, ◌<◌, ◌≡◌, refl, inl, inr, Bool, true, false, Option, none, some, List, [], ◌∷◌, ◌++◌, length,
  Outcome, done, panic, arith,
}
use drogue_device.Fifo.{Fifo}
use drogue_device.Actor.Code.{ActorCode}
use drogue_device.Actor.Item.{Item, Sent, Step}
use drogue_device.Actor.Item.Safe.{
  IsFresh, AllFresh, Owned, Good, GoodStep, poll-IsFresh, poll-IsDeferred,
}
use drogue_device.Actor.Context.{ActorState, Context, Polling, do_poll, new, send}
use drogue_device.Actor.Context.Order.{
  Served, then_served, serve, serve_one, serve_ready, agenda, with_current, view, do_poll-Serves,
}

module _ (C : ActorCode) where
  abbrev pub SaneServed : Outcome (Served C) → Type 0
  SaneServed panic = ⊥
  SaneServed (done s) = Owned C s.actor s.current × AllFresh C s.rest

  then_served-Sane :
      (sent : List (Sent C)) (r : Outcome (Served C))
      → SaneServed r
      → SaneServed (then_served C sent r)
  then_served-Sane sent (done s) g = g
  then_served-Sane sent panic g = g

  serve_one-Sane :
      (items : List (Item C))
      → AllFresh C items
      → ((self : C.Self) (world : C.World) → SaneServed (serve C items (some self) world))
      → (r : Outcome (Step C)) → GoodStep C r
      → SaneServed (serve_one C (serve C items) items r)
  unfolding serve_one
  serve_one-Sane items f ih panic g = g
  serve_one-Sane items f ih (done s) g = go s.is_ready s.actor refl g
    where
      go :
          (b : Bool) (a : Option C.Self)
          → s.actor ≡ a
          → Good C b a s.item
          → SaneServed (serve_ready C (serve C items) items s b)
      go true (some self) e h = rw e (then_served-Sane s.sent _ (ih self s.world))
      go true none e h = absurd h
      go false none e h = rw e (h, f)
      go false (some self) e h = absurd h

  serve-Sane :
      (items : List (Item C)) (self : C.Self) (world : C.World)
      → AllFresh C items
      → SaneServed (serve C items (some self) world)
  unfolding serve
  serve-Sane [] self world f = (tt, tt)
  serve-Sane (item ∷ items) self world f =
      serve_one-Sane items f.1 (λ a w. serve-Sane items a w f.1) _
        (poll-IsFresh C self item world f.0)

  pub AllFresh-append :
      (items more : List (Item C)) → AllFresh C items → AllFresh C more → AllFresh C (items ++ more)
  AllFresh-append [] more f g = g
  AllFresh-append (item ∷ items) more f g = (f.0, AllFresh-append items more f.1 g)

module _ (C : ActorCode) (Q : Fifo (Item C)) where
  -- The actor is in its cell or in the item in flight, and the mailbox holds only new items.
  pub record IsSane (c : Context C Q) : Type 0 where
    pub owned : Owned C c.actor c.current
    pub fresh : AllFresh C (Q.contents c.items)

  pub new-IsSane : (actor : C.Self) → IsSane (new C Q actor)
  unfolding new
  new-IsSane actor = record { owned = tt; fresh = rw Q.contents-empty tt }

  -- What is sent to an actor is new.
  pub send-IsSane :
      (item : Item C) (c : Context C Q) {c' : Context C Q}
      → IsFresh C item
      → IsSane c
      → send C Q item c ≡ done c'
      → IsSane c'
  unfolding send
  send-IsSane item c {c'} f v e = elim (Q.enqueue_lem item c.items) [
    | inl (room, (q, ok, back)) ↦
        let sent : c' ≡ record c { items = q; flag = ActorState.ready } = ground (arith, e, ok) in
        rw sent (record {
          owned = v.owned;
          fresh = rw back (AllFresh-append C (Q.contents c.items) (item ∷ []) v.fresh (f, tt));
        })
    | inr (full, no_room) ↦ ground (arith, e, no_room)
  ]

  pub serve_agenda-Sane :
      (actor : Option C.Self) (current : Option (Item C)) (items : List (Item C)) (world : C.World)
      → Owned C actor current
      → AllFresh C items
      → SaneServed C (serve C (with_current C Q current items) actor world)
  unfolding serve
  serve_agenda-Sane (some self) none items world o f = serve-Sane C items self world f
  serve_agenda-Sane none (some item) items world o f =
      serve_one-Sane C items f (λ a w. serve-Sane C items a w f) _ (poll-IsDeferred C item world o)
  serve_agenda-Sane none none items world o f = absurd o
  serve_agenda-Sane (some self) (some item) items world o f = absurd o

  -- If the actor is in its cell or in the item in flight, and the mailbox holds only items that
  -- were not polled yet, then do_poll with fuel for them ends without a panic ("actor is missing")
  -- and leaves the actor and the mailbox in that condition.
  pub do_poll-IsSane :
      (fuel : ℕ) (c : Context C Q) (world : C.World)
      → length (agenda C Q c) < fuel
      → IsSane c
      → (p : Polling C Q) × (do_poll C Q fuel c world ≡ some (done p)) × IsSane p.context
  do_poll-IsSane fuel c world l v =
      let (o, e, same) = do_poll-Serves C Q fuel c world l in
      ended o e (
        rw (← same) at
          (serve_agenda-Sane c.actor c.current (Q.contents c.items) world v.owned v.fresh))
    where
      ended :
          (o : Outcome (Polling C Q))
          → do_poll C Q fuel c world ≡ some o
          → SaneServed C (view C Q o)
          → (p : Polling C Q) × (do_poll C Q fuel c world ≡ some (done p)) × IsSane p.context
      ended panic e g = absurd g
      ended (done p) e g = (p, e, record { owned = g.0; fresh = g.1 })
