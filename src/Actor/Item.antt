-- ===== src/Actor/Item.antt =====
-- src/actor.rs: the entries of a mailbox, `OnLifecycle`, `OnNotify` and `OnRequest`, and their `poll`.
pub mod Safe
use drogue_device.Base.{
  ℕ, Bool, true, false, Option, none, some, List, [], ◌∷◌, Outcome, done, panic, ◌>>=◌, unwrap,
}
use drogue_device.Actor.Code.{
  Lifecycle, initialize, start, stop, sleep, hibernate, Completion, Response, Polled, ready,
  pending, ActorCode,
}

-- `sender` names the completion handle that the requester waits on.
pub data Item (C : ActorCode) : Type 0 where
  on_lifecycle : (event : Lifecycle) (dispatched : Bool) (defer : Option C.Task) → Item C
  on_notify : (message : Option C.Message) (defer : Option C.Task) → Item C
  on_request : (message : Option C.Ask) (sender : ℕ) (defer : Option C.AskTask) → Item C

-- What goes through a `CompletionSender`.
pub data Sent (C : ActorCode) : Type 0 where
  value : (sender : ℕ) → C.Answer → Sent C
  future : (sender : ℕ) → C.AnswerTask → Sent C

-- What one poll leaves: whether it was `Ready`, the actor cell, the item, the world, what was sent.
pub record Step (C : ActorCode) : Type 0 where
  pub is_ready : Bool
  pub actor : Option C.Self
  pub item : Item C
  pub world : C.World
  pub sent : List (Sent C)

module _ (C : ActorCode) where
  open C use {
    Self, Message, Ask, Answer, World, Task, AskTask, AnswerTask, on_initialize, on_start, on_sleep,
    on_hibernate, on_stop, poll_task, poll_ask,
  }

  dispatch : Lifecycle → Self → World → Completion Self Task × World
  dispatch initialize = on_initialize
  dispatch start = on_start
  dispatch stop = on_stop
  dispatch sleep = on_sleep
  dispatch hibernate = on_hibernate

  finish : Bool → Option Self → Item C → World → List (Sent C) → Outcome (Step C)
  finish b a i w s = done (record { is_ready = b; actor = a; item = i; world = w; sent = s })

  -- `check defer`, for an item that is `item defer`.
  after_task : (Option Task → Item C) → Option Self → Polled Self Task × World → Outcome (Step C)
  unfolding finish
  after_task item actor (ready self, world) = finish true (some self) (item none) world []
  after_task item actor (pending task, world) = finish false actor (item (some task)) world []

  check_defer : (Option Task → Item C) → Option Self → Option Task → World → Outcome (Step C)
  unfolding after_task
  check_defer item actor (some task) world = after_task item actor (poll_task task world)
  check_defer item actor none world = finish true actor (item none) world []

  -- The actor has been taken out for the handler; an immediate completion puts it back.
  after_handler : (Option Task → Item C) → Completion Self Task × World → Outcome (Step C)
  unfolding check_defer
  after_handler item (Completion.immediate self, world) =
      finish true (some self) (item none) world []
  after_handler item (Completion.defer task, world) = check_defer item none (some task) world

  after_ask : ℕ → Option Self → Polled (Self × Answer) AskTask × World → Outcome (Step C)
  unfolding finish
  after_ask sender actor (ready (self, answer), world) =
      finish true (some self) (on_request none sender none) world (value sender answer ∷ [])
  after_ask sender actor (pending task, world) =
      finish false actor (on_request none sender (some task)) world []

  check_ask : ℕ → Option Self → Option AskTask → World → Outcome (Step C)
  unfolding after_ask
  check_ask sender actor (some task) world = after_ask sender actor (poll_ask task world)
  check_ask sender actor none world = finish true actor (on_request none sender none) world []

  after_response : ℕ → Response Self Answer AskTask AnswerTask × World → Outcome (Step C)
  unfolding check_ask
  after_response sender (Response.immediate self answer, world) =
      finish true (some self) (on_request none sender none) world (value sender answer ∷ [])
  after_response sender (Response.immediate_future self task, world) =
      finish true (some self) (on_request none sender none) world (future sender task ∷ [])
  after_response sender (Response.defer task, world) = check_ask sender none (some task) world

  -- `Future::poll` of the three items; a handler is called at the first poll only.
  unfoldable pub poll : Option Self → Item C → World → Outcome (Step C)
  unfolding dispatch after_handler after_response
  poll actor (on_lifecycle event false d) world = do
    self ← unwrap actor
    after_handler (on_lifecycle event true) (dispatch event self world)
  poll actor (on_lifecycle event true d) world = check_defer (on_lifecycle event true) actor d world
  poll actor (on_notify (some message) d) world = do
    self ← unwrap actor
    after_handler (on_notify none) (C.on_notify message self world)
  poll actor (on_notify none d) world = check_defer (on_notify none) actor d world
  poll actor (on_request (some message) sender d) world = do
    self ← unwrap actor
    after_response sender (C.on_request message self world)
  poll actor (on_request none sender d) world = check_ask sender actor d world
