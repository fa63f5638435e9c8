-- ===== src/Driver/Memory.antt =====
-- src/driver/memory.rs: the actor that tells how much of the heap is in use. HEAP is initialized, since
-- the items of its mailbox are boxes in it, each of which is dropped when it is done with; what is
-- logged is kept in the order of the log.
pub mod Follow
mod Tests
use drogue_device.Base.{
  ℕ, Bool, true, false, Option, none, some, List, [], ◌∷◌, ◌++◌, Outcome, done, ◌>>=◌,
}
use drogue_device.Actor.Code.{Lifecycle, ActorCode, Completion, Response, Polled}
use drogue_device.Actor.Item.{Item, on_lifecycle, on_notify, on_request, Sent, poll}
use drogue_device.Alloc.Heap.Clients.{Op, give_back}
use drogue_device.Alloc.Objects.{used, free}
use drogue_device.Alloc.Objects.Clients.{Program, step_boxes}

pub data Query : Type 0 where
  query : Query

pub record Info : Type 0 where
  pub used : ℕ
  pub free : ℕ

-- `Memory` has no fields.
pub data Memory : Type 0 where
  memory : Memory

-- The program has the heap, and the boxes in it.
pub record System : Type 0 where
  pub program : Program
  pub logged : List Info

abbrev pub info : System → Info
info world = record { used = used world.program.global; free = free world.program.global }

abbrev pub on_query_request : Query → Memory → System → Response Memory Info ⊥ ⊥ × System
on_query_request message self world = (Response.immediate self (info world), world)

abbrev pub on_query_notify : Query → Memory → System → Completion Memory ⊥ × System
on_query_notify message self world =
    (Completion.immediate self, record world { logged = world.logged ++ info world ∷ [] })

-- The default lifecycle handlers of the trait `Actor`.
abbrev pub stays : Memory → System → Completion Memory ⊥ × System
stays self world = (Completion.immediate self, world)

abbrev pub code : ActorCode
code = record {
  Self = Memory;
  Message = Query;
  Ask = Query;
  Answer = Info;
  World = System;
  Task = ⊥;
  AskTask = ⊥;
  AnswerTask = ⊥;
  on_initialize = stays;
  on_start = stays;
  on_sleep = stays;
  on_hibernate = stays;
  on_stop = stays;
  on_notify = on_query_notify;
  on_request = on_query_request;
  poll_task = λ task world. absurd task;
  poll_ask = λ task world. absurd task;
}

-- The actor cell, what the actor shares with the program, and what was answered.
pub record Serving : Type 0 where
  pub actor : Option Memory
  pub world : System
  pub sent : List (Sent code)

-- An item that is done with is dropped: its box is the one at `place`.
abbrev pub drop_item : Bool → (place : ℕ) → Program → Outcome Program
drop_item true place program = step_boxes program (give_back place)
drop_item false place program = done program

-- One round of the loop of `do_poll`, for an item whose box is at `place`.
unfoldable pub serve_item : Item code → (place : ℕ) → Serving → Outcome Serving
serve_item item place s = do
  step ← poll code s.actor item s.world
  program ← drop_item step.is_ready place step.world.program
  done (record {
    actor = step.actor;
    world = record { program = program; logged = step.world.logged };
    sent = s.sent ++ step.sent;
  })

-- What may happen, in any order: the actor is served a request, a notification or an event of its
-- lifecycle, or any part of the program boxes a value or drops a box.
pub data Turn : Type 0 where
  asked : (sender place : ℕ) → Turn
  notified : (place : ℕ) → Turn
  lifecycle : (event : Lifecycle) (place : ℕ) → Turn
  calls : Op → Turn

unfoldable pub turn : Turn → Serving → Outcome Serving
unfolding serve_item
turn (asked sender place) s = serve_item (on_request (some query) sender none) place s
turn (notified place) s = serve_item (on_notify (some query) none) place s
turn (lifecycle event place) s = serve_item (on_lifecycle event false none) place s
turn (calls op) s = do
  program ← step_boxes s.world.program op
  done (record s { world = record { program = program; logged = s.world.logged } })

unfoldable pub serve_all : List Turn → Serving → Outcome Serving
unfolding turn
serve_all [] s = done s
serve_all (t ∷ ts) s = turn t s >>= serve_all ts
