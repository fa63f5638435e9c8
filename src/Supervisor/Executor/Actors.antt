-- ===== src/Supervisor/Executor/Actors.antt =====
-- The executor over actors with mailboxes: `ActorExecutor` of src/supervisor/actor_executor.rs, run on
-- the contexts of Actor.Context. The actors are of one kind and share a world, which keeps what the
-- handlers send to other actors and the wakers they call. An actor that is polled cannot see the
-- mailboxes of others, so what it sends is put there at the end of its poll, in order; no handler
-- sends to its own actor. A poll has fuel for the item in flight and the mailbox.
pub mod Posts
pub mod Polls
pub mod Rests
use drogue_device.Base.{
  ℕ, zero, suc, Bool, false, Option, none, some, List, [], ◌∷◌, ◌++◌, length, Outcome, done, panic,
  ◌>>=◌,
}
use drogue_device.Fifo.{Fifo}
use drogue_device.Actor.Code.{ActorCode}
use drogue_device.Actor.Item.{Item, Sent}
use drogue_device.Actor.Context.{Context, Polling, do_poll, send}
use drogue_device.Actor.Context.Order.{agenda}

-- What stores READY in the flag of an actor: an item that is put into its mailbox, or a waker.
pub data Post (C : ActorCode) : Type 0 where
  sends : (to : ℕ) → Item C → Post C
  wakes : (to : ℕ) → Post C

abbrev pub target : {C : ActorCode} → Post C → ℕ
target (sends to item) = to
target (wakes to) = to

abbrev pub targets : {C : ActorCode} → List (Post C) → List ℕ
targets [] = []
targets (p ∷ ps) = target p ∷ targets ps

-- How the world keeps what was posted since the poll of an actor has begun.
pub record Mail (C : ActorCode) : Type 0 where
  pub begin : ℕ → C.World → C.World
  pub posts : C.World → List (Post C)

module _ (C : ActorCode) (Q : Fifo (Item C)) where
  pub record Actors : Type 0 where
    pub contexts : List (Context C Q)
    pub world : C.World
    pub sent : List (Sent C)

  abbrev pub Polled : Type 0
  Polled = List (Context C Q) × C.World × List (Sent C)

  abbrev pub with_polled : List (Context C Q) → Option (Outcome (Polling C Q)) → Outcome Polled
  with_polled cs none = panic
  with_polled cs (some panic) = panic
  with_polled cs (some (done p)) = done (p.context ∷ cs, p.world, p.sent)

  -- Actor `i` is polled.
  unfoldable pub poll_context : ℕ → List (Context C Q) → C.World → Outcome Polled
  poll_context i [] world = panic
  poll_context zero (c ∷ cs) world =
      with_polled cs (do_poll C Q (suc (length (agenda C Q c))) c world)
  poll_context (suc i) (c ∷ cs) world = do
    (cs', world', sent) ← poll_context i cs world
    done (c ∷ cs', world', sent)

  -- Item `item` is put into the mailbox of actor `to`.
  unfoldable pub send_to : (to : ℕ) → Item C → List (Context C Q) → Outcome (List (Context C Q))
  send_to to item [] = panic
  send_to zero item (c ∷ cs) = do c' ← send C Q item c; done (c' ∷ cs)
  send_to (suc to) item (c ∷ cs) = do cs' ← send_to to item cs; done (c ∷ cs')

  abbrev pub post : Post C → List (Context C Q) → Outcome (List (Context C Q))
  post (sends to item) cs = send_to to item cs
  post (wakes to) cs = done cs

  unfoldable pub post_all : List (Post C) → List (Context C Q) → Outcome (List (Context C Q))
  post_all [] cs = done cs
  post_all (p ∷ ps) cs = post p cs >>= post_all ps

  -- `do_poll` is always `Pending`.
  unfoldable pub poll_actor : Mail C → ℕ → Actors → Outcome (Bool × Actors × List ℕ)
  poll_actor M i a = do
    (polled, world, sent) ← poll_context i a.contexts (M.begin i a.world)
    contexts ← post_all (M.posts world) polled
    done (
      false,
      record { contexts = contexts; world = world; sent = a.sent ++ sent },
      targets (M.posts world),
    )
