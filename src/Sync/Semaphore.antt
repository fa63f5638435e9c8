-- ===== src/Sync/Semaphore.antt =====
-- src/synchronization/sempahore.rs: `Semaphore`, an actor that hands out permits. As in the mutex, the
-- waker of every waiter is the flag of the actor itself.
pub mod Lost
pub mod Balance
use drogue_device.Base.{
  ℕ, zero, suc, ◌+◌, ◌-◌, Bool, true, false, ltb, if◌then◌else◌, Option, none, some, List, [], ◌∷◌,
  add_usize,
}
use drogue_device.Fifo.{Fifo}
use drogue_device.Actor.Code.{Completion, Response, Polled, ready, pending, ActorCode}

-- The state behind the actor. `woken` lists the wakers that `release` has called.
pub record Shared (W : Fifo ℕ) : Type 0 where
  pub permits : ℕ
  pub waiters : W.Queue
  pub woken : List ℕ

pub data Acquire : Type 0 where
  acquire_message : Acquire

pub data Release : Type 0 where
  release_message : Release

-- `address` is the actor's own; it is the waker of every poll too.
pub record SemaphoreActor : Type 0 where
  pub address : ℕ

-- Dropping a permit sends `Release` to its address.
pub record Permit : Type 0 where
  pub address : ℕ

-- The future of `SemaphoreActor::acquire`, inside the async block that owns the actor.
pub record AcquireFuture : Type 0 where
  pub waiting : Bool
  pub actor : SemaphoreActor

module _ (W : Fifo ℕ) where
  unfoldable pub new : ℕ → Shared W
  new permits = record { permits = permits; waiters = W.empty; woken = [] }

  unfoldable pub acquire : Shared W → Bool × Shared W
  acquire s = if ltb 0 s.permits then (true, record s { permits = s.permits - 1 }) else (false, s)

  abbrev wake_next : Shared W → Option (ℕ × W.Queue) → Shared W
  wake_next s none = s
  wake_next s (some (next, waiters)) = record s { waiters = waiters; woken = next ∷ s.woken }

  unfoldable pub release : Shared W → Shared W
  release s = wake_next (record s { permits = add_usize s.permits 1 }) (W.dequeue s.waiters)

  abbrev keep_waiter : Shared W → Option W.Queue → Shared W
  keep_waiter s none = s
  keep_waiter s (some waiters) = record s { waiters = waiters }

  unfoldable pub waiting : ℕ → Shared W → Shared W
  waiting waker s = keep_waiter s (W.enqueue waker s.waiters)

  abbrev acquired :
      AcquireFuture → Bool × Shared W → Polled (SemaphoreActor × Permit) AcquireFuture × Shared W
  acquired f (true, s) = (ready (f.actor, record { address = f.actor.address }), s)
  acquired f (false, s) =
      (pending (record f { waiting = true }), if f.waiting then s else waiting f.actor.address s)

  -- `Acquire::poll`, and `respond_with` the permit once it is there.
  unfoldable pub poll_acquire :
      AcquireFuture → Shared W → Polled (SemaphoreActor × Permit) AcquireFuture × Shared W
  poll_acquire f s = acquired f (acquire s)

  unfoldable pub on_request :
      Acquire
      → SemaphoreActor
      → Shared W
      → Response SemaphoreActor Permit AcquireFuture (Unit {0}) × Shared W
  on_request acquire_message actor s =
      (Response.defer (record { waiting = false; actor = actor }), s)

  unfoldable pub on_notify :
      Release → SemaphoreActor → Shared W → Completion SemaphoreActor ⊥ × Shared W
  on_notify release_message actor s = (Completion.immediate actor, release s)

  -- The lifecycle handlers are the default ones.
  abbrev at_once : SemaphoreActor → Shared W → Completion SemaphoreActor ⊥ × Shared W
  at_once actor s = (Completion.immediate actor, s)

  abbrev pub code : ActorCode
  code = record {
    Self = SemaphoreActor;
    Message = Release;
    Ask = Acquire;
    Answer = Permit;
    World = Shared W;
    Task = ⊥;
    AskTask = AcquireFuture;
    AnswerTask = Unit {0};
    on_initialize = at_once;
    on_start = at_once;
    on_sleep = at_once;
    on_hibernate = at_once;
    on_stop = at_once;
    on_notify = on_notify;
    on_request = on_request;
    poll_task = λ t s. absurd t;
    poll_ask = poll_acquire;
  }
