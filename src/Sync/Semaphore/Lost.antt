-- ===== src/Sync/Semaphore/Lost.antt =====
-- A request for a permit that finds none.
use drogue_device.Base.{
  ℕ, ◌+◌, ◌≤◌, ◌<◌, ◌≡◌, true, if◌then◌else◌, none, some, List, [], ◌++◌, length, done, arith,
}
use drogue_device.Fifo.{Fifo}
use drogue_device.Actor.Code.{pending}
use drogue_device.Actor.Item.{Item, on_request}
use drogue_device.Actor.Context.{Context, Polling, Event, happen_all}
use drogue_device.Actor.Context.Blocked.{arrivals, happen_all-IsBlocked}
use drogue_device.Sync.Semaphore.{Shared, AcquireFuture, code, poll_acquire, acquire, waiting}

module _ (W : Fifo ℕ) where
  -- All permits are out.
  abbrev pub AllOut : AcquireFuture → Shared W → Type 0
  AllOut f s = s.permits ≡ 0

  poll_acquire-AllOut :
      (f : AcquireFuture) (s : Shared W)
      → s.permits ≡ 0
      → (f' : AcquireFuture) × (s' : Shared W) × (poll_acquire W f s ≡ (pending f', s'))
        × (s'.permits ≡ 0)
  unfolding poll_acquire acquire waiting
  poll_acquire-AllOut f s h = (
    record f { waiting = true },
    if f.waiting then s else waiting W f.actor.address (s),
    ground arith,
    ground arith,
  )

  module _ (Q : Fifo (Item (code W))) where
    -- While an acquire request is in flight that found no permit, and as long as the mailbox has
    -- room, no sequence of arrivals (releases among them) and polls gives it a permit: the count
    -- stays 0, nothing is answered, and every message that arrives stays in the mailbox.
    pub happen_all-AllOut :
        (fuel sender : ℕ) (f : AcquireFuture) (es : List (Event (code W))) (c : Context (code W) Q)
        (s : Shared W)
        → 0 < fuel
        → length (Q.contents c.items) + length (arrivals es) ≤ Q.capacity
        → c.current ≡ some (on_request none sender (some f))
        → s.permits ≡ 0
        → (p : Polling (code W) Q) × (happen_all (code W) Q fuel es c s ≡ some (done p))
          × (p.world.permits ≡ 0)
          × (p.sent ≡ [])
          × (Q.contents p.context.items ≡ Q.contents c.items ++ arrivals es)
    happen_all-AllOut fuel sender f es c s h room current out =
        let (p, e, blocked, left, none_sent) =
          happen_all-IsBlocked (code W) Q AllOut poll_acquire-AllOut fuel sender es c s h room
            (record { task = f; current = current; waits = out }) in
        (p, e, blocked.waits, none_sent, left)
