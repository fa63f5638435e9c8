-- ===== src/Supervisor/Executor/Actors/Posts.antt =====
-- What is posted at the end of a poll: the mailboxes and the flags after it.
use native.Mathlib.Decide.{ℕ_discrete}
use drogue_device.Base.{
  ℕ, zero, suc, ◌+◌, ◌≤◌, ◌<◌, ◌≡◌, ◌≢◌, refl, ap, inl, inr, List, [], ◌∷◌, ◌++◌, length, done,
  arith,
}
use drogue_device.Fifo.{Fifo}
use drogue_device.Actor.Code.{ActorCode}
use drogue_device.Actor.Item.{Item}
use drogue_device.Actor.Item.Safe.{IsFresh}
use drogue_device.Actor.Context.{ActorState, waiting, ready, Context, send}
use drogue_device.Actor.Context.Safety.{IsSane, send-IsSane}
use drogue_device.Actor.Context.Rest.{RestsAt}
use drogue_device.Supervisor.Executor.{store, wake}
use drogue_device.Supervisor.Executor.Actors.{Post, sends, wakes, targets, send_to, post_all}

store-store_ne :
    (x y : ActorState) (i k : ℕ) (states : List ActorState)
    → i ≢ k
    → store x i (store y k states) ≡ store y k (store x i states)
store-store_ne x y i k [] n = refl
store-store_ne x y zero zero (state ∷ states) n = absurd (n refl)
store-store_ne x y zero (suc k) (state ∷ states) n = refl
store-store_ne x y (suc i) zero (state ∷ states) n = refl
store-store_ne x y (suc i) (suc k) (state ∷ states) n =
    ap (λ s. state ∷ s) (store-store_ne x y i k states (λ e. n (ap suc e)))

store-store_eq :
    (x y : ActorState) (i : ℕ) (states : List ActorState)
    → store x i (store y i states) ≡ store x i states
store-store_eq x y i [] = refl
store-store_eq x y zero (state ∷ states) = refl
store-store_eq x y (suc i) (state ∷ states) = ap (λ s. state ∷ s) (store-store_eq x y i states)

module _ (C : ActorCode) (Q : Fifo (Item C)) where
  abbrev pub RestsIn : ActorState → Context C Q → Type 0
  RestsIn ready c = Unit {0}
  RestsIn _ c = RestsAt C c.current (Q.contents c.items)

  -- An actor that is not READY has nothing to do.
  abbrev pub Fits : List ActorState → List (Context C Q) → Type 0
  Fits [] [] = Unit {0}
  Fits (state ∷ states) (c ∷ cs) = IsSane C Q c × RestsIn state c × Fits states cs
  Fits _ _ = ⊥

  -- Each mailbox has room for `n` more items.
  abbrev pub AllRoom : ℕ → List (Context C Q) → Type 0
  AllRoom n [] = Unit {0}
  AllRoom n (c ∷ cs) = (length (Q.contents c.items) + n ≤ Q.capacity) × AllRoom n cs

  -- What actor `i` may post, with `count` actors: new items for others, and any wake-ups.
  abbrev pub AllFit : (count i : ℕ) → List (Post C) → Type 0
  AllFit count i [] = Unit {0}
  AllFit count i (sends to item ∷ ps) = (to < count) × (i ≢ to) × IsFresh C item × AllFit count i ps
  AllFit count i (wakes to ∷ ps) = AllFit count i ps

  pub AllRoom-less : (n m : ℕ) (cs : List (Context C Q)) → m ≤ n → AllRoom n cs → AllRoom m cs
  AllRoom-less n m [] l r = tt
  AllRoom-less n m (c ∷ cs) l r = (omega (arith, l, r.0), AllRoom-less n m cs l r.1)

  Fits-ready :
      (k : ℕ) (states : List ActorState) (cs : List (Context C Q))
      → Fits states cs
      → Fits (store ready k states) cs
  Fits-ready k [] cs f = f
  Fits-ready zero (state ∷ states) (c ∷ cs) f = (f.0, tt, f.2)
  Fits-ready (suc k) (state ∷ states) (c ∷ cs) f = (f.0, f.1, Fits-ready k states cs f.2)
  Fits-ready k (state ∷ states) [] f = absurd f

  -- A message to an actor whose mailbox has room.
  send-room :
      (item : Item C) (c : Context C Q) (n : ℕ)
      → IsFresh C item
      → IsSane C Q c
      → length (Q.contents c.items) + suc n ≤ Q.capacity
      → (c' : Context C Q) × (send C Q item c ≡ done c')
        × IsSane C Q c'
        × (length (Q.contents c'.items) + n ≤ Q.capacity)
  unfolding send
  send-room item c n f v r = elim (Q.enqueue_lem item c.items) [
    | inl (room, (q, ok, back)) ↦
        let sent : send C Q item c ≡ done (record c { items = q; flag = ready }) = rw ok refl in
        (
          record c { items = q; flag = ready },
          sent,
          send-IsSane C Q item c f v sent,
          omega (arith, ap length back, length-snoc (Q.contents c.items) item, r),
        )
    | inr (full, no_room) ↦ absurd (omega (arith, full, r))
  ]
    where
      length-snoc :
          (items : List (Item C)) (i : Item C) → length (items ++ i ∷ []) ≡ suc (length items)
      length-snoc [] i = refl
      length-snoc (x ∷ items) i = omega (arith, length-snoc items i)

  send_to-Fits :
      (to : ℕ) (item : Item C) (n : ℕ) (states : List ActorState) (cs : List (Context C Q))
      → to < length cs
      → IsFresh C item
      → Fits states cs
      → AllRoom (suc n) cs
      → (cs' : List (Context C Q)) × (send_to C Q to item cs ≡ done cs')
        × Fits (store ready to states) cs'
        × AllRoom n cs'
        × (length cs' ≡ length cs)
  unfolding send_to
  send_to-Fits to item n states [] l h f r = absurd (omega (arith, l))
  send_to-Fits to item n [] (c ∷ cs) l h f r = absurd f
  send_to-Fits zero item n (state ∷ states) (c ∷ cs) l h f r =
      let (c', e, v, room) = send-room item c n h f.0 r.0 in
      (c' ∷ cs, rw e refl, (v, tt, f.2), (room, AllRoom-less (suc n) n cs (omega arith) r.1), refl)
  send_to-Fits (suc to) item n (state ∷ states) (c ∷ cs) l h f r =
      let (cs', e, g, room, same) = send_to-Fits to item n states cs (omega (arith, l)) h f.2 r.1 in
      (c ∷ cs', rw e refl, (f.0, f.1, g), (omega (arith, r.0), room), omega (arith, same))

  -- All that actor `i` has posted is delivered: the flags are READY where something arrived, but
  -- not the one of `i`, which is stored last.
  pub post_all-Fits :
      (i n : ℕ) (ps : List (Post C)) (states : List ActorState) (cs : List (Context C Q))
      → AllFit (length cs) i ps
      → Fits (store waiting i states) cs
      → AllRoom (n + length ps) cs
      → (cs' : List (Context C Q)) × (post_all C Q ps cs ≡ done cs')
        × Fits (store waiting i (wake (targets ps) states)) cs'
        × AllRoom n cs'
        × (length cs' ≡ length cs)
  unfolding post_all
  post_all-Fits i n [] states cs a f r =
      (cs, refl, f, AllRoom-less (n + 0) n cs (omega arith) r, refl)
  post_all-Fits i n (sends to item ∷ ps) states cs a f r =
      let (ds, e, g, room, same) =
        send_to-Fits to item (n + length ps) (store waiting i states) cs a.0 a.2 f
          (AllRoom-less (n + suc (length ps)) (suc (n + length ps)) cs (omega arith) r) in
      let (cs', e', g', room', same') =
        post_all-Fits i n ps (store ready to states) ds (rw same a.3)
          (rw (store-store_ne waiting ready i to states a.1) g) room in
      (cs', rw e e', g', room', omega (arith, same, same'))
  post_all-Fits i n (wakes to ∷ ps) states cs a f r =
      post_all-Fits i n ps (store ready to states) cs a woken
        (AllRoom-less (n + suc (length ps)) (n + length ps) cs (omega arith) r)
    where
      woken : Fits (store waiting i (store ready to states)) cs
      woken = elim (ℕ_discrete i to) [
        | yes e ↦ rw (← e, store-store_eq waiting ready i states) f
        | no n ↦
            rw (store-store_ne waiting ready i to states n)
              (Fits-ready to (store waiting i states) cs f)
      ]
