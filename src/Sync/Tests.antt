-- ===== src/Sync/Tests.antt =====
-- Runs of the actors of src/synchronization, and the theorems at concrete inputs.
use drogue_device.Base.{
  ℕ, ◌+◌, ◌≡◌, refl, true, false, List, [], ◌∷◌, length, none, some, arith, Outcome, done,
}
use drogue_device.Fifo.{Fifo, list_fifo}
use drogue_device.Actor.Code.{ActorCode}
use drogue_device.Actor.Item.{Item, on_notify, on_request}
use drogue_device.Actor.Item
use drogue_device.Actor.Context.{Context, Polling, Event, arrives, polls, new, do_poll, happen_all}
use drogue_device.Actor.Context.Order.{agenda, view, serve, do_poll-Serves}
use drogue_device.Actor.Context
use drogue_device.Sync.Signal.{State, Op, signals, resets, run, slot_run, run_refines}
use drogue_device.Sync.Signal
use drogue_device.Sync.Mutex.{Shared, code, lock_message, unlock_message, MutexActor, LockFuture}
use drogue_device.Sync.Mutex
use drogue_device.Sync.Mutex.Lost.{happen_all-Taken}
use drogue_device.Sync.Mutex.Exclusion.{owned, do_poll-owned}
use drogue_device.Sync.Semaphore
use drogue_device.Sync.Semaphore.{AcquireFuture, SemaphoreActor, acquire_message, release_message}
use drogue_device.Sync.Semaphore.Balance.{do_poll-permits}
use drogue_device.Sync.Semaphore.Balance
use drogue_device.Sync.Semaphore.Lost.{happen_all-AllOut}

abbrev wakers : Fifo ℕ
wakers = list_fifo 16

abbrev mutex : ActorCode
mutex = code ℕ wakers

abbrev mailbox : Fifo (Item mutex)
mailbox = list_fifo 16

abbrev actor : MutexActor
actor = record { address = 7 }

-- Two requests for the lock wait in the mailbox of a new mutex.
abbrev two_locks : Context mutex mailbox
two_locks = record {
  actor = some actor;
  current = none;
  items = on_request (some lock_message) 1 none ∷ on_request (some lock_message) 2 none ∷ [];
  in_flight = false;
  flag = Context.ActorState.ready;
}

abbrev unlocked : Shared ℕ wakers
unlocked = record { val = some 5; waiters = []; woken = [] }

-- The first has the lock; the second waits.
abbrev contended : Context mutex mailbox
contended = record {
  actor = none;
  current = some (on_request none 2 (some (record { waiting = true; actor = actor })));
  items = [];
  in_flight = true;
  flag = Context.ActorState.ready;
}

abbrev taken : Shared ℕ wakers
taken = record { val = none; waiters = 7 ∷ []; woken = [] }

abbrev polled : Polling mutex mailbox
polled = record {
  context = contended;
  world = taken;
  sent = Item.value 1 (record { val = some 5; address = 7 }) ∷ [];
}

do_poll_contended : do_poll mutex mailbox 3 two_locks unlocked ≡ some (done polled)
unfolding do_poll Item.poll Context.next_item Mutex.on_request Mutex.poll_lock Mutex.lock
    Mutex.waiting
do_poll_contended = refl

do_poll-Serves_example :
    (o : Outcome (Polling mutex mailbox)) × (do_poll mutex mailbox 3 two_locks unlocked ≡ some o)
    × (view mutex mailbox o ≡ serve mutex (agenda mutex mailbox two_locks) (some actor) unlocked)
do_poll-Serves_example = do_poll-Serves mutex mailbox 3 two_locks unlocked (omega arith)

abbrev unlock_item : Item mutex
unlock_item = on_notify (some (unlock_message 5)) none

-- The holder gives the lock back, and the mutex is polled.
abbrev unlocks : List (Event mutex)
unlocks = arrives unlock_item ∷ polls ∷ polls ∷ []

happen_all-Taken_example :
    (p : Polling mutex mailbox) × (happen_all mutex mailbox 3 unlocks contended taken
      ≡ some (done p))
    × (p.world.val ≡ none)
    × (p.sent ≡ [])
    × (p.context.items ≡ unlock_item ∷ [])
happen_all-Taken_example =
    happen_all-Taken ℕ wakers mailbox 3 2 (record { waiting = true; actor = actor }) unlocks
      contended taken (omega arith) (omega arith) refl refl

do_poll-owned_example :
    owned ℕ wakers taken (agenda mutex mailbox contended) + length polled.sent
    ≡ owned ℕ wakers unlocked (agenda mutex mailbox two_locks)
do_poll-owned_example =
    do_poll-owned ℕ wakers mailbox 3 two_locks unlocked polled (omega arith) (omega arith)
      do_poll_contended

abbrev semaphore : ActorCode
semaphore = Semaphore.code wakers

abbrev requests : Fifo (Item semaphore)
requests = list_fifo 16

abbrev waiting_permit : Context semaphore requests
waiting_permit = record {
  actor = none;
  current =
      some (on_request none 2 (some (record { waiting = true; actor = record { address = 7 } })));
  items = [];
  in_flight = true;
  flag = Context.ActorState.ready;
}

happen_all-AllOut_example :
    (p : Polling semaphore requests) × (happen_all semaphore requests 3
        (arrives (on_notify (some release_message) none) ∷ polls ∷ [])
        waiting_permit
        (record { permits = 0; waiters = 7 ∷ []; woken = [] })
      ≡ some (done p))
    × (p.world.permits ≡ 0)
    × (p.sent ≡ [])
    × (p.context.items ≡ on_notify (some release_message) none ∷ [])
happen_all-AllOut_example =
    happen_all-AllOut wakers requests 3 2
      (record { waiting = true; actor = record { address = 7 } })
      (arrives (on_notify (some release_message) none) ∷ polls ∷ []) waiting_permit
      (record { permits = 0; waiters = 7 ∷ []; woken = [] }) (omega arith) (omega arith) refl refl

abbrev ops : List (Op ℕ)
ops = Signal.polls 1 ∷ Signal.polls 2 ∷ signals 4 ∷ Signal.polls 2 ∷ resets ∷ []

run_refines_example : run ops State.empty ≡ slot_run ops (record { value = none; first = none })
run_refines_example = run_refines ops State.empty

-- A request for the only permit, and a release.
abbrev requested : Context semaphore requests
requested = record {
  actor = some (record { address = 7 });
  current = none;
  items = on_request (some acquire_message) 1 none ∷ on_notify (some release_message) none ∷ [];
  in_flight = false;
  flag = Context.ActorState.ready;
}

abbrev served : Polling semaphore requests
served = record {
  context = record requested { items = [] };
  world = record { permits = 1; waiters = []; woken = [] };
  sent = Item.value 1 (record { address = 7 }) ∷ [];
}

do_poll-both :
    do_poll semaphore requests 3 requested (record { permits = 1; waiters = []; woken = [] })
    ≡ some (done served)
unfolding do_poll Item.poll Context.next_item Semaphore.on_request Semaphore.on_notify
    Semaphore.poll_acquire Semaphore.acquire Semaphore.release
do_poll-both = refl

do_poll-permits_example :
    Balance.owned wakers served.world (agenda semaphore requests served.context)
      + length served.sent
    ≡ Balance.owned wakers
        (record { permits = 1; waiters = []; woken = [] })
        (agenda semaphore requests requested)
do_poll-permits_example =
    do_poll-permits wakers requests 3 requested (record { permits = 1; waiters = []; woken = [] })
      served (omega arith) (omega arith) do_poll-both
