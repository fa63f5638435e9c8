-- ===== src/Sync/Mutex/Exclusion.antt =====
-- The mutex never hands the value out twice: it is in the cell, in an unlock message, or with a holder.
use native.Mathlib.Nat.{add_assoc}
use mathlib.Core.Path.{subst}
use drogue_device.Base.{
  ℕ, ◌+◌, ◌≤◌, ◌<◌, ◌≡◌, refl, Bool, true, false, Option, none, some, List, [], ◌∷◌, length,
  length-append, Outcome, done, panic, arith,
}
use drogue_device.Fifo.{Fifo}
use drogue_device.Actor.Code.{initialize, start, stop, sleep, hibernate}
use drogue_device.Actor.Item.{Item, on_lifecycle, on_notify, on_request, Sent, Step, poll}
use drogue_device.Actor.Context.{Context, Polling, do_poll}
use drogue_device.Actor.Context.Order.{
  Served, then_served, serve, serve_one, serve_ready, agenda, view, do_poll-Serves,
}
use drogue_device.Sync.Mutex.{
  Shared, Unlock, unlock_message, lock_message, MutexActor, LockFuture, code, poll_lock, lock,
  waiting, unlock, Lock,
}
use drogue_device.Sync.Mutex

module _ (T : Type 0) (W : Fifo ℕ) where
  abbrev count : Option T → ℕ
  count none = 0
  count (some val) = 1

  -- Unlock messages that wait to be handled.
  abbrev unlocks_in : Item (code T W) → ℕ
  unlocks_in (on_notify (some message) d) = 1
  unlocks_in _ = 0

  abbrev pub unlocks : List (Item (code T W)) → ℕ
  unlocks [] = 0
  unlocks (item ∷ items) = unlocks_in item + unlocks items

  -- The copies of the value that the mutex has, in its cell or on the way to it.
  abbrev pub owned : Shared T W → List (Item (code T W)) → ℕ
  owned s items = count s.val + unlocks items

  abbrev Counts : ℕ → Outcome (Step (code T W)) → Type 0
  Counts n panic = Unit {0}
  Counts n (done st) = (count st.world.val + length st.sent ≡ n) × (unlocks_in st.item ≡ 0)

  poll-Counts :
      (actor : Option MutexActor) (item : Item (code T W)) (s : Shared T W)
      → count s.val + unlocks_in item ≤ 1
      → Counts (count s.val + unlocks_in item) (poll (code T W) actor item s)
  unfolding poll Mutex.on_notify Mutex.on_request poll_lock lock waiting unlock
  poll-Counts none (on_lifecycle event false d) s h = tt
  poll-Counts (some a) (on_lifecycle initialize false d) s h = omega arith
  poll-Counts (some a) (on_lifecycle start false d) s h = omega arith
  poll-Counts (some a) (on_lifecycle stop false d) s h = omega arith
  poll-Counts (some a) (on_lifecycle sleep false d) s h = omega arith
  poll-Counts (some a) (on_lifecycle hibernate false d) s h = omega arith
  poll-Counts a (on_lifecycle event true none) s h = omega arith
  poll-Counts a (on_lifecycle event true (some t)) s h = absurd t
  poll-Counts none (on_notify (some m) d) s h = tt
  poll-Counts (some a) (on_notify (some (unlock_message v)) d) s h = ground arith
  poll-Counts a (on_notify none none) s h = omega arith
  poll-Counts a (on_notify none (some t)) s h = absurd t
  poll-Counts none (on_request (some m) sender d) s h = tt
  poll-Counts (some a) (on_request (some lock_message) sender d) s h = ground arith
  poll-Counts a (on_request none sender none) s h = omega arith
  poll-Counts a (on_request none sender (some f)) s h = ground arith

  abbrev unlocks_at : Option (Item (code T W)) → ℕ
  unlocks_at none = 0
  unlocks_at (some item) = unlocks_in item

  abbrev ServedCounts : ℕ → Outcome (Served (code T W)) → Type 0
  ServedCounts n panic = Unit {0}
  ServedCounts n (done r) =
      count r.world.val + (unlocks_at r.current + unlocks r.rest) + length r.sent ≡ n

  then_served-Counts :
      (n : ℕ) (sent : List (Sent (code T W))) (r : Outcome (Served (code T W)))
      → ServedCounts n r
      → ServedCounts (length sent + n) (then_served (code T W) sent r)
  then_served-Counts n sent panic h = tt
  then_served-Counts n sent (done r) h = omega (arith, h, length-append sent r.sent)

  serve_one-Counts :
      (n : ℕ) (items : List (Item (code T W)))
      → n + unlocks items ≤ 1
      → ((actor : Option MutexActor) (s : Shared T W)
          → owned s items ≤ 1
          → ServedCounts (owned s items) (serve (code T W) items actor s))
      → (r : Outcome (Step (code T W))) → Counts n r
      → ServedCounts (n + unlocks items) (serve_one (code T W) (serve (code T W) items) items r)
  unfolding serve_one
  serve_one-Counts n items h ih panic c = tt
  serve_one-Counts n items h ih (done st) c = go st.is_ready
    where
      total : length st.sent + owned st.world items ≡ n + unlocks items
      total = omega (arith, c.0)

      go :
          (b : Bool)
          → ServedCounts
              (n + unlocks items)
              (serve_ready (code T W) (serve (code T W) items) items st b)
      go true =
          subst
            (λ k.
              ServedCounts k
                (then_served (code T W) st.sent (serve (code T W) items st.actor st.world)))
            total
            (then_served-Counts (owned st.world items) st.sent
              (serve (code T W) items st.actor st.world)
              (ih st.actor st.world (omega (arith, total))))
      go false = omega (arith, c.0, c.1)

  serve-Counts :
      (items : List (Item (code T W))) (actor : Option MutexActor) (s : Shared T W)
      → owned s items ≤ 1
      → ServedCounts (owned s items) (serve (code T W) items actor s)
  unfolding serve
  serve-Counts [] actor s h = omega arith
  serve-Counts (item ∷ items) actor s h =
      subst (λ k. ServedCounts k (serve (code T W) (item ∷ items) actor s))
        (add_assoc (count s.val) (unlocks_in item) (unlocks items))
        (serve_one-Counts (count s.val + unlocks_in item) items (omega arith)
          (λ a w l. serve-Counts items a w l) _ (poll-Counts actor item s (omega arith)))

  -- A poll of the mutex actor neither makes nor loses a copy of the value: when the cell and the
  -- unlock messages to be served hold at most one copy and there is fuel for the messages, then
  -- after a poll that does not panic the copies there are left, with one for each answer sent, are
  -- as many as before. So at most one lock is handed out, and only out of the cell or of an
  -- unlock.
  pub do_poll-owned :
      (Q : Fifo (Item (code T W))) (fuel : ℕ) (c : Context (code T W) Q) (s : Shared T W)
      (p : Polling (code T W) Q)
      → length (agenda (code T W) Q c) < fuel
      → owned s (agenda (code T W) Q c) ≤ 1
      → do_poll (code T W) Q fuel c s ≡ some (done p)
      → owned p.world (agenda (code T W) Q p.context) + length p.sent
        ≡ owned s (agenda (code T W) Q c)
  do_poll-owned Q fuel c s p l h e =
      let (o, e', same) = do_poll-Serves (code T W) Q fuel c s l in
      let shown : view (code T W) Q (done p) ≡ serve (code T W) (agenda (code T W) Q c) c.actor s =
        cc (e, e', same) in
      counted p.context.current refl
        (rw (← shown) at (serve-Counts (agenda (code T W) Q c) c.actor s h))
    where
      counted :
          (cur : Option (Item (code T W)))
          → p.context.current ≡ cur
          → ServedCounts (owned s (agenda (code T W) Q c)) (view (code T W) Q (done p))
          → owned p.world (agenda (code T W) Q p.context) + length p.sent
            ≡ owned s (agenda (code T W) Q c)
      counted none f k = rw f (let k' = rw f at k in omega (arith, k'))
      counted (some item) f k = rw f (rw f at k)
