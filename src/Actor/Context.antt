-- ===== src/Actor/Context.antt =====
-- src/actor.rs: `ActorContext`, an actor with its mailbox; src/supervisor/actor_executor.rs: the loop
-- of `do_poll` and the state flag that the executor reads. A context is mounted, so that its producer,
-- its consumer and its flag are there. Handlers do not send to their own actor.
pub mod Order
pub mod Safety
pub mod Rest
pub mod Blocked
pub mod Notify
use drogue_device.Base.{
  ℕ, zero, suc, Bool, true, false, ltb, if◌then◌else◌, Option, none, some, List, [], ◌∷◌, ◌++◌,
  Outcome, done, panic, ◌>>=◌, unwrap,
}
use drogue_device.Fifo.{Fifo}
use drogue_device.Actor.Code.{Lifecycle, ActorCode}
use drogue_device.Actor.Item.{Item, on_lifecycle, on_notify, on_request, Sent, Step, poll}

-- `UNKNOWN` is never stored.
pub data ActorState : Type 0 where
  idle waiting ready : ActorState

-- `flag` is what `state_flag_handle` points to.
pub record Context (C : ActorCode) (Q : Fifo (Item C)) : Type 0 where
  pub actor : Option C.Self
  pub current : Option (Item C)
  pub items : Q.Queue
  pub in_flight : Bool
  pub flag : ActorState

pub record Polling (C : ActorCode) (Q : Fifo (Item C)) : Type 0 where
  pub context : Context C Q
  pub world : C.World
  pub sent : List (Sent C)

module _ (C : ActorCode) (Q : Fifo (Item C)) where
  -- `Supervised::new` sets the flag.
  unfoldable pub new : C.Self → Context C Q
  new actor = record {
    actor = some actor;
    current = none;
    items = Q.empty;
    in_flight = false;
    flag = ready;
  }

  -- A full mailbox is a panic, "too many messages".
  unfoldable pub send : Item C → Context C Q → Outcome (Context C Q)
  send item c = do
    items ← unwrap (Q.enqueue item c.items)
    done (record c { items = items; flag = ready })

  unfoldable pub notify : C.Message → Context C Q → Outcome (Context C Q)
  notify message c = send (on_notify (some message) none) c

  unfoldable pub request : C.Ask → ℕ → Context C Q → Outcome (Context C Q)
  request message sender c = send (on_request (some message) sender none) c

  abbrev pub start_next : Context C Q → Option (Item C × Q.Queue) → Context C Q
  start_next c none = record c { in_flight = false }
  start_next c (some (item, items)) = record c {
    current = some item;
    items = items;
    in_flight = true;
  }

  abbrev pub next_for : Context C Q → Option (Item C) → Context C Q
  next_for c none = start_next c (Q.dequeue c.items)
  next_for c (some item) = c

  -- The item to poll: the one in flight, or else the next of the mailbox.
  unfoldable pub next_item : Context C Q → Context C Q
  next_item c = next_for c c.current

  abbrev pub also_sent :
      List (Sent C) → Option (Outcome (Polling C Q)) → Option (Outcome (Polling C Q))
  also_sent sent none = none
  also_sent sent (some panic) = some panic
  also_sent sent (some (done p)) = some (done (record p { sent = sent ++ p.sent }))

  -- A completed item is dropped and the loop goes round; a pending one ends it.
  unfoldable pub after_ready :
      (Context C Q → C.World → Option (Outcome (Polling C Q)))
      → Context C Q
      → Step C
      → Bool
      → Option (Outcome (Polling C Q))
  after_ready again c s true =
      also_sent s.sent (again (record c { actor = s.actor; current = none }) s.world)
  after_ready again c s false = some (
      done (record {
        context = record c { actor = s.actor; current = some s.item };
        world = s.world;
        sent = s.sent;
      }))

  unfoldable pub after_poll :
      (Context C Q → C.World → Option (Outcome (Polling C Q)))
      → Context C Q
      → Outcome (Step C)
      → Option (Outcome (Polling C Q))
  unfolding after_ready
  after_poll again c panic = some panic
  after_poll again c (done s) = after_ready again c s s.is_ready

  unfoldable pub poll_current :
      (Context C Q → C.World → Option (Outcome (Polling C Q)))
      → Context C Q
      → Option (Item C)
      → C.World
      → Option (Outcome (Polling C Q))
  unfolding after_poll
  poll_current again c none world = some (done (record { context = c; world = world; sent = [] }))
  poll_current again c (some item) world = after_poll again c (poll C c.actor item world)

  -- The loop of `ActiveActor::do_poll`; `none` when the fuel runs out.
  unfoldable pub do_poll : ℕ → Context C Q → C.World → Option (Outcome (Polling C Q))
  unfolding poll_current
  do_poll zero c world = none
  do_poll (suc fuel) c world = let n = next_item c in poll_current (do_poll fuel) n n.current world

  -- `ActorContext::lifecycle`, which polls at once.
  unfoldable pub lifecycle : ℕ → Lifecycle → Context C Q → C.World → Option (Outcome (Polling C Q))
  lifecycle fuel event c world = elim (send (on_lifecycle event false none) c) [
    | panic ↦ some panic
    | done c' ↦ do_poll fuel c' world
  ]

-- What may happen to an actor: something is put into its mailbox, or the executor polls it.
pub data Event (C : ActorCode) : Type 0 where
  arrives : Item C → Event C
  polls : Event C

module _ (C : ActorCode) (Q : Fifo (Item C)) where
  abbrev pub then_polling :
      Option (Outcome (Polling C Q))
      → (Context C Q → C.World → Option (Outcome (Polling C Q)))
      → Option (Outcome (Polling C Q))
  then_polling none k = none
  then_polling (some panic) k = some panic
  then_polling (some (done p)) k = also_sent C Q p.sent (k p.context p.world)

  -- `fuel` is what each poll may use.
  unfoldable pub happen : ℕ → Event C → Context C Q → C.World → Option (Outcome (Polling C Q))
  happen fuel (arrives item) c world = elim (send C Q item c) [
    | panic ↦ some panic
    | done c' ↦ some (done (record { context = c'; world = world; sent = [] }))
  ]
  happen fuel polls c world = do_poll C Q fuel c world

  unfoldable pub happen_all :
      ℕ → List (Event C) → Context C Q → C.World → Option (Outcome (Polling C Q))
  happen_all fuel [] c world = some (done (record { context = c; world = world; sent = [] }))
  happen_all fuel (e ∷ es) c world = then_polling (happen fuel e c world) (happen_all fuel es)
