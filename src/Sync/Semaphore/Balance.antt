-- ===== src/Sync/Semaphore/Balance.antt =====
-- Permits are neither made nor lost: each is in the count, in a release message, or with a holder.
use native.Mathlib.Nat.{add_assoc}
use mathlib.Core.Path.{subst}
use drogue_device.Base.{
  ◌^◌, ℕ, ◌+◌, ◌<◌, ◌≡◌, refl, Bool, true, false, Option, none, some, List, [], ◌∷◌, length,
  length-append, Outcome, done, panic, arith,
}
use drogue_device.Fifo.{Fifo}
use drogue_device.Actor.Code.{initialize, start, stop, sleep, hibernate}
use drogue_device.Actor.Item.{Item, on_lifecycle, on_notify, on_request, Sent, Step, poll}
use drogue_device.Actor.Context.{Context, Polling, do_poll}
use drogue_device.Actor.Context.Order.{
  Served, then_served, serve, serve_one, serve_ready, agenda, view, do_poll-Serves,
}
use drogue_device.Sync.Semaphore.{
  Shared, Release, release_message, acquire_message, SemaphoreActor, AcquireFuture, code,
  poll_acquire, acquire, waiting, release,
}
use drogue_device.Sync.Semaphore

module _ (W : Fifo ℕ) where
  -- Release messages that wait to be handled.
  abbrev releases_in : Item (code W) → ℕ
  releases_in (on_notify (some message) d) = 1
  releases_in _ = 0

  abbrev pub releases : List (Item (code W)) → ℕ
  releases [] = 0
  releases (item ∷ items) = releases_in item + releases items

  -- The permits that the semaphore has, or that are on the way to it.
  abbrev pub owned : Shared W → List (Item (code W)) → ℕ
  owned s items = s.permits + releases items

  abbrev Counts : ℕ → Outcome (Step (code W)) → Type 0
  Counts n panic = Unit {0}
  Counts n (done st) = (st.world.permits + length st.sent ≡ n) × (releases_in st.item ≡ 0)

  poll-Counts :
      (actor : Option SemaphoreActor) (item : Item (code W)) (s : Shared W)
      → s.permits + releases_in item < 2 ^ 32
      → Counts (s.permits + releases_in item) (poll (code W) actor item s)
  unfolding poll Semaphore.on_notify Semaphore.on_request poll_acquire acquire waiting release
  poll-Counts none (on_lifecycle event false d) s h = tt
  poll-Counts (some a) (on_lifecycle initialize false d) s h = omega arith
  poll-Counts (some a) (on_lifecycle start false d) s h = omega arith
  poll-Counts (some a) (on_lifecycle stop false d) s h = omega arith
  poll-Counts (some a) (on_lifecycle sleep false d) s h = omega arith
  poll-Counts (some a) (on_lifecycle hibernate false d) s h = omega arith
  poll-Counts a (on_lifecycle event true none) s h = omega arith
  poll-Counts a (on_lifecycle event true (some t)) s h = absurd t
  poll-Counts none (on_notify (some m) d) s h = tt
  poll-Counts (some a) (on_notify (some (release_message)) d) s h = ground arith
  poll-Counts a (on_notify none none) s h = omega arith
  poll-Counts a (on_notify none (some t)) s h = absurd t
  poll-Counts none (on_request (some m) sender d) s h = tt
  poll-Counts (some a) (on_request (some acquire_message) sender d) s h = ground arith
  poll-Counts a (on_request none sender none) s h = omega arith
  poll-Counts a (on_request none sender (some f)) s h = ground arith

  abbrev releases_at : Option (Item (code W)) → ℕ
  releases_at none = 0
  releases_at (some item) = releases_in item

  abbrev ServedCounts : ℕ → Outcome (Served (code W)) → Type 0
  ServedCounts n panic = Unit {0}
  ServedCounts n (done r) =
      r.world.permits + (releases_at r.current + releases r.rest) + length r.sent ≡ n

  then_served-Counts :
      (n : ℕ) (sent : List (Sent (code W))) (r : Outcome (Served (code W)))
      → ServedCounts n r
      → ServedCounts (length sent + n) (then_served (code W) sent r)
  then_served-Counts n sent panic h = tt
  then_served-Counts n sent (done r) h = omega (arith, h, length-append sent r.sent)

  serve_one-Counts :
      (n : ℕ) (items : List (Item (code W)))
      → n + releases items < 2 ^ 32
      → ((actor : Option SemaphoreActor) (s : Shared W)
          → owned s items < 2 ^ 32
          → ServedCounts (owned s items) (serve (code W) items actor s))
      → (r : Outcome (Step (code W))) → Counts n r
      → ServedCounts (n + releases items) (serve_one (code W) (serve (code W) items) items r)
  unfolding serve_one
  serve_one-Counts n items h ih panic c = tt
  serve_one-Counts n items h ih (done st) c = go st.is_ready
    where
      total : length st.sent + owned st.world items ≡ n + releases items
      total = omega (arith, c.0)

      go :
          (b : Bool)
          → ServedCounts
              (n + releases items)
              (serve_ready (code W) (serve (code W) items) items st b)
      go true =
          subst
            (λ k.
              ServedCounts k
                (then_served (code W) st.sent (serve (code W) items st.actor st.world)))
            total
            (then_served-Counts (owned st.world items) st.sent
              (serve (code W) items st.actor st.world)
              (ih st.actor st.world (omega (arith, total))))
      go false = omega (arith, c.0, c.1)

  serve-Counts :
      (items : List (Item (code W))) (actor : Option SemaphoreActor) (s : Shared W)
      → owned s items < 2 ^ 32
      → ServedCounts (owned s items) (serve (code W) items actor s)
  unfolding serve
  serve-Counts [] actor s h = omega arith
  serve-Counts (item ∷ items) actor s h =
      subst (λ k. ServedCounts k (serve (code W) (item ∷ items) actor s))
        (add_assoc (s.permits) (releases_in item) (releases items))
        (serve_one-Counts (s.permits + releases_in item) items (omega arith)
          (λ a w l. serve-Counts items a w l) _ (poll-Counts actor item s (omega arith)))

  -- A poll of the semaphore actor neither makes nor loses a permit: when the count and the release
  -- messages to be served are together below 2 ^ 32 and there is fuel for the messages, then after
  -- a poll that does not panic the permits there are left, with one for each answer sent, are as
  -- many as before.
  pub do_poll-permits :
      (Q : Fifo (Item (code W))) (fuel : ℕ) (c : Context (code W) Q) (s : Shared W)
      (p : Polling (code W) Q)
      → length (agenda (code W) Q c) < fuel
      → owned s (agenda (code W) Q c) < 2 ^ 32
      → do_poll (code W) Q fuel c s ≡ some (done p)
      → owned p.world (agenda (code W) Q p.context) + length p.sent ≡ owned s (agenda (code W) Q c)
  do_poll-permits Q fuel c s p l h e =
      let (o, e', same) = do_poll-Serves (code W) Q fuel c s l in
      let shown : view (code W) Q (done p) ≡ serve (code W) (agenda (code W) Q c) c.actor s =
        cc (e, e', same) in
      counted p.context.current refl
        (rw (← shown) at (serve-Counts (agenda (code W) Q c) c.actor s h))
    where
      counted :
          (cur : Option (Item (code W)))
          → p.context.current ≡ cur
          → ServedCounts (owned s (agenda (code W) Q c)) (view (code W) Q (done p))
          → owned p.world (agenda (code W) Q p.context) + length p.sent
            ≡ owned s (agenda (code W) Q c)
      counted none f k = rw f (let k' = rw f at k in omega (arith, k'))
      counted (some item) f k = rw f (rw f at k)
