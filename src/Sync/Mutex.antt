-- ===== src/Sync/Mutex.antt =====
-- src/synchronization/mutex.rs: `Mutex`, an actor that hands out one value. Every waiter polls inside
-- the mutex actor, so the waker that it leaves is the flag of that actor.
pub mod Lost
pub mod Exclusion
use drogue_device.Base.{
  ℕ, Bool, true, false, not, if◌then◌else◌, Option, none, some, List, [], ◌∷◌, ◌++◌, Outcome, done,
  panic, ◌>>=◌, unwrap,
}
use drogue_device.Fifo.{Fifo}
use drogue_device.Actor.Code.{Completion, Response, Polled, ready, pending, ActorCode}

-- The state behind the actor. `woken` lists the wakers that `unlock` has called.
pub record Shared (T : Type 0) (W : Fifo ℕ) : Type 0 where
  pub val : Option T
  pub waiters : W.Queue
  pub woken : List ℕ

-- The messages.
pub data Lock : Type 0 where
  lock_message : Lock

pub data Unlock (T : Type 0) : Type 0 where
  unlock_message : T → Unlock T

-- `address` is the actor's own; it is the waker of every poll too.
pub record MutexActor : Type 0 where
  pub address : ℕ

pub record Exclusive (T : Type 0) : Type 0 where
  pub val : Option T
  pub address : ℕ

-- The future of `MutexActor::lock`, inside the async block that owns the actor.
pub record LockFuture : Type 0 where
  pub waiting : Bool
  pub actor : MutexActor

module _ (T : Type 0) (W : Fifo ℕ) where
  unfoldable pub new : T → Shared T W
  new val = record { val = some val; waiters = W.empty; woken = [] }

  -- `Shared::lock` takes the value.
  unfoldable pub lock : Shared T W → Option T × Shared T W
  lock s = (s.val, record s { val = none })

  abbrev wake_next : Shared T W → Option (ℕ × W.Queue) → Shared T W
  wake_next s none = s
  wake_next s (some (next, waiters)) = record s { waiters = waiters; woken = next ∷ s.woken }

  unfoldable pub unlock : T → Shared T W → Shared T W
  unlock val s = wake_next (record s { val = some val }) (W.dequeue s.waiters)

  abbrev keep_waiter : Shared T W → Option W.Queue → Shared T W
  keep_waiter s none = s
  keep_waiter s (some waiters) = record s { waiters = waiters }

  -- A waker that finds the queue full is dropped (`.ok()`).
  unfoldable pub waiting : ℕ → Shared T W → Shared T W
  waiting waker s = keep_waiter s (W.enqueue waker s.waiters)

  abbrev locked :
      LockFuture → Option T × Shared T W → Polled (MutexActor × Exclusive T) LockFuture × Shared T W
  locked f (some val, s) =
      (ready (f.actor, record { val = some val; address = f.actor.address }), s)
  locked f (none, s) =
      (pending (record f { waiting = true }), if f.waiting then s else waiting f.actor.address s)

  -- `LockFuture::poll`, and `respond_with` the value once it is there.
  unfoldable pub poll_lock :
      LockFuture → Shared T W → Polled (MutexActor × Exclusive T) LockFuture × Shared T W
  poll_lock f s = locked f (lock s)

  unfoldable pub on_request :
      Lock
      → MutexActor
      → Shared T W
      → Response MutexActor (Exclusive T) LockFuture (Unit {0}) × Shared T W
  on_request lock_message actor s = (Response.defer (record { waiting = false; actor = actor }), s)

  unfoldable pub on_notify :
      Unlock T → MutexActor → Shared T W → Completion MutexActor ⊥ × Shared T W
  on_notify (unlock_message val) actor s = (Completion.immediate actor, unlock val s)

  -- The message of `Exclusive::drop`.
  unfoldable pub drop : Exclusive T → Outcome (Unlock T)
  drop e = do val ← unwrap e.val; done (unlock_message val)

  -- The lifecycle handlers are the default ones.
  abbrev at_once : MutexActor → Shared T W → Completion MutexActor ⊥ × Shared T W
  at_once actor s = (Completion.immediate actor, s)

  abbrev pub code : ActorCode
  code = record {
    Self = MutexActor;
    Message = Unlock T;
    Ask = Lock;
    Answer = Exclusive T;
    World = Shared T W;
    Task = ⊥;
    AskTask = LockFuture;
    AnswerTask = Unit {0};
    on_initialize = at_once;
    on_start = at_once;
    on_sleep = at_once;
    on_hibernate = at_once;
    on_stop = at_once;
    on_notify = on_notify;
    on_request = on_request;
    poll_task = λ t s. absurd t;
    poll_ask = poll_lock;
  }
