-- ===== src/Sync/Mutex/Lost.antt =====
-- A lock request that finds the value taken.
use drogue_device.Base.{
  ℕ, ◌+◌, ◌≤◌, ◌<◌, ◌≡◌, true, if◌then◌else◌, none, some, List, [], ◌++◌, length, done, arith,
}
use drogue_device.Fifo.{Fifo}
use drogue_device.Actor.Code.{pending}
use drogue_device.Actor.Item.{Item, on_request}
use drogue_device.Actor.Context.{Context, Polling, Event, happen_all}
use drogue_device.Actor.Context.Blocked.{arrivals, happen_all-IsBlocked}
use drogue_device.Sync.Mutex.{Shared, LockFuture, code, poll_lock, lock, waiting}

module _ (T : Type 0) (W : Fifo ℕ) where
  -- Another holds the value.
  abbrev pub Taken : LockFuture → Shared T W → Type 0
  Taken f s = s.val ≡ none

  pub poll_lock-Taken :
      (f : LockFuture) (s : Shared T W)
      → s.val ≡ none
      → (f' : LockFuture) × (s' : Shared T W) × (poll_lock T W f s ≡ (pending f', s'))
        × (s'.val ≡ none)
  unfolding poll_lock lock waiting
  poll_lock-Taken f s h = (
    record f { waiting = true },
    if f.waiting
        then record s { val = none }
        else waiting T W f.actor.address (record s { val = none }),
    rw h,
    ground arith,
  )

  module _ (Q : Fifo (Item (code T W))) where
    -- While a lock request is in flight that found the value taken, and as long as the mailbox has
    -- room, no sequence of arrivals (unlock messages among them) and polls gives it the lock: the
    -- value stays away, nothing is answered, and every message that arrives stays in the mailbox.
    pub happen_all-Taken :
        (fuel sender : ℕ) (f : LockFuture) (es : List (Event (code T W))) (c : Context (code T W) Q)
        (s : Shared T W)
        → 0 < fuel
        → length (Q.contents c.items) + length (arrivals es) ≤ Q.capacity
        → c.current ≡ some (on_request none sender (some f))
        → s.val ≡ none
        → (p : Polling (code T W) Q) × (happen_all (code T W) Q fuel es c s ≡ some (done p))
          × (p.world.val ≡ none)
          × (p.sent ≡ [])
          × (Q.contents p.context.items ≡ Q.contents c.items ++ arrivals es)
    happen_all-Taken fuel sender f es c s h room current taken =
        let (p, e, blocked, left, none_sent) =
          happen_all-IsBlocked (code T W) Q Taken poll_lock-Taken fuel sender es c s h room
            (record { task = f; current = current; waits = taken }) in
        (p, e, blocked.waits, none_sent, left)
