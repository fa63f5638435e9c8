-- ===== src/Supervisor/Executor/Tests.antt =====
-- Two actors that notify each other, until the ball has been returned often enough.
use drogue_device.Base.{
  ℕ, zero, suc, ◌+◌, ◌≤◌, ◌≡◌, false, none, some, List, [], ◌∷◌, length, done, panic, Outcome,
}
use drogue_device.Fifo.{Fifo, list_fifo}
use drogue_device.Actor.Code.{ActorCode, Completion}
use drogue_device.Actor.Item.{Item, Step, on_notify, on_request}
use drogue_device.Actor.Context.{Context, waiting, ready}
use drogue_device.Supervisor.Executor.{System}
use drogue_device.Supervisor.Executor.Actors.{Actors, Mail, Post, sends}

-- Who is polled, the actors that got the ball from it, and how often it will still be returned.
record Game : Type 0 where
  running : ℕ
  played : List ℕ
  left : ℕ

data Ball : Type 0 where
  ball : Ball

abbrev other : ℕ → ℕ
other zero = 1
other (suc i) = 0

abbrev returned : ℕ → Game → Game
returned zero g = g
returned (suc n) g = record g { played = other g.running ∷ g.played; left = n }

abbrev stays : Unit {0} → Game → Completion (Unit {0}) ⊥ × Game
stays self g = (Completion.immediate self, g)

abbrev player : ActorCode
player = record {
  Self = Unit {0};
  Message = Ball;
  Ask = ⊥;
  Answer = ⊥;
  World = Game;
  Task = ⊥;
  AskTask = ⊥;
  AnswerTask = ⊥;
  on_initialize = stays;
  on_start = stays;
  on_sleep = stays;
  on_hibernate = stays;
  on_stop = stays;
  on_notify = λ message self g. (Completion.immediate self, returned g.left g);
  on_request = λ message self g. absurd message;
  poll_task = λ t g. absurd t;
  poll_ask = λ t g. absurd t;
}

abbrev mailbox : Fifo (Item player)
mailbox = list_fifo 16

abbrev passes : List ℕ → List (Post player)
passes [] = []
passes (to ∷ tos) = sends to (on_notify (some ball) none) ∷ passes tos

abbrev mail : Mail player
mail = record { begin = λ i g. record g { running = i; played = [] }; posts = λ g. passes g.played }

-- The ball goes to the other of the two.
abbrev AllOther : ℕ → List ℕ → Type 0
AllOther i [] = Unit {0}
AllOther i (to ∷ tos) = (to ≡ other i) × AllOther i tos

abbrev During : ℕ → Game → Type 0
During i g = (g.running ≡ i) × AllOther i g.played

abbrev Kept : ℕ → Game → Game → Type 0
Kept i g h = During i h × (h.left + length (passes h.played) ≤ g.left + length (passes g.played))

abbrev KeptStep : ℕ → Game → Outcome (Step player) → Type 0
KeptStep i g panic = Unit {0}
KeptStep i g (done s) = Kept i g s.world

abbrev holding : List (Item player) → Context player mailbox
holding items = record {
  actor = some tt;
  current = none;
  items = items;
  in_flight = false;
  flag = ready;
}

-- The first has the ball, which is returned nine times.
abbrev serves : System (Actors player mailbox)
serves = record {
  states = ready ∷ waiting ∷ [];
  world = record {
    contexts = holding (on_notify (some ball) none ∷ []) ∷ holding [] ∷ [];
    world = record { running = 0; played = []; left = 9 };
    sent = [];
  };
}
