-- ===== src/Actor/Item/Safe.antt =====
-- An item's `poll` leaves the actor in its cell, or in the async block of the item.
use drogue_device.Base.{
  ℕ, Bool, true, false, Option, none, some, List, [], ◌∷◌, Outcome, done, panic,
}
use drogue_device.Actor.Code.{ActorCode, Completion, Response, Polled, ready, pending}
use drogue_device.Actor.Item.{
  Item, on_lifecycle, on_notify, on_request, Step, poll, after_task, after_handler, after_ask,
  after_response, dispatch,
}

module _ (C : ActorCode) where
  -- Not looked at yet.
  abbrev pub IsFresh : Item C → Type 0
  IsFresh (on_lifecycle event false none) = Unit {0}
  IsFresh (on_notify (some message) none) = Unit {0}
  IsFresh (on_request (some message) sender none) = Unit {0}
  IsFresh _ = ⊥

  -- In an async block, which owns the actor.
  abbrev pub IsDeferred : Item C → Type 0
  IsDeferred (on_lifecycle event true (some task)) = Unit {0}
  IsDeferred (on_notify none (some task)) = Unit {0}
  IsDeferred (on_request none sender (some task)) = Unit {0}
  IsDeferred _ = ⊥

  abbrev pub AllFresh : List (Item C) → Type 0
  AllFresh [] = Unit {0}
  AllFresh (item ∷ items) = IsFresh item × AllFresh items

  -- The actor is in its cell, unless an item in flight owns it.
  abbrev pub Owned : Option C.Self → Option (Item C) → Type 0
  Owned (some actor) none = Unit {0}
  Owned none (some item) = IsDeferred item
  Owned _ _ = ⊥

  abbrev pub Good : Bool → Option C.Self → Item C → Type 0
  Good true (some actor) item = Unit {0}
  Good false none item = IsDeferred item
  Good _ _ _ = ⊥

  abbrev pub GoodStep : Outcome (Step C) → Type 0
  GoodStep panic = ⊥
  GoodStep (done s) = Good s.is_ready s.actor s.item

  after_task-Good :
      (event : Option C.Task → Item C)
      → ((task : C.Task) → IsDeferred (event (some task)))
      → (r : Polled C.Self C.Task × C.World) → GoodStep (after_task C event none r)
  unfolding after_task
  after_task-Good event d (ready a, w) = tt
  after_task-Good event d (pending t, w) = d t

  after_handler-Good :
      (event : Option C.Task → Item C)
      → ((task : C.Task) → IsDeferred (event (some task)))
      → (r : Completion C.Self C.Task × C.World) → GoodStep (after_handler C event r)
  unfolding after_handler
  after_handler-Good event d (Completion.immediate a, w) = tt
  after_handler-Good event d (Completion.defer t, w) = after_task-Good event d (C.poll_task t w)

  after_ask-Good :
      (sender : ℕ) (r : Polled (C.Self × C.Answer) C.AskTask × C.World)
      → GoodStep (after_ask C sender none r)
  unfolding after_ask
  after_ask-Good sender (ready (a, answer), w) = tt
  after_ask-Good sender (pending t, w) = tt

  after_response-Good :
      (sender : ℕ) (r : Response C.Self C.Answer C.AskTask C.AnswerTask × C.World)
      → GoodStep (after_response C sender r)
  unfolding after_response
  after_response-Good sender (Response.immediate a answer, w) = tt
  after_response-Good sender (Response.immediate_future a t, w) = tt
  after_response-Good sender (Response.defer t, w) = after_ask-Good sender (C.poll_ask t w)

  -- A new item, with the actor in its cell.
  pub poll-IsFresh :
      (self : C.Self) (item : Item C) (world : C.World)
      → IsFresh item
      → GoodStep (poll C (some self) item world)
  unfolding poll
  poll-IsFresh self (on_lifecycle event false none) world f =
      after_handler-Good (on_lifecycle event true) (λ _. tt) (dispatch C event self world)
  poll-IsFresh self (on_notify (some m) none) world f =
      after_handler-Good (on_notify none) (λ _. tt) (C.on_notify m self world)
  poll-IsFresh self (on_request (some m) sender none) world f =
      after_response-Good sender (C.on_request m self world)
  poll-IsFresh self _ world f = absurd f

  -- An item in its async block, with the cell empty.
  pub poll-IsDeferred :
      (item : Item C) (world : C.World) → IsDeferred item → GoodStep (poll C none item world)
  unfolding poll
  poll-IsDeferred (on_lifecycle event true (some t)) world f =
      after_task-Good (on_lifecycle event true) (λ _. tt) (C.poll_task t world)
  poll-IsDeferred (on_notify none (some t)) world f =
      after_task-Good (on_notify none) (λ _. tt) (C.poll_task t world)
  poll-IsDeferred (on_request none sender (some t)) world f =
      after_ask-Good sender (C.poll_ask t world)
  poll-IsDeferred _ world f = absurd f
