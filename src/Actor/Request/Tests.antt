-- ===== src/Actor/Request/Tests.antt =====
-- A request whose async block is pending twice.
use drogue_device.Base.{ℕ, zero, suc, ◌≡◌, refl, false, none, some, [], ◌∷◌, done, arith}
use drogue_device.Fifo.{Fifo, list_fifo}
use drogue_device.Actor.Code.{ActorCode, Completion, Response, Polled}
use drogue_device.Actor.Item.{Item, Sent}
use drogue_device.Actor.Context.{Context, waiting, request, happen_all}
use drogue_device.Actor.Request.{now, later, deferred, poll_times, EndsWith}
use drogue_device.Actor.Request.Answer.{HandleCase, request-Answering}

abbrev keeps : ℕ → ℕ → Completion ℕ ℕ × ℕ
keeps self world = (Completion.immediate self, world)

-- A request is answered with the count so far, after as many pending polls as it says.
abbrev slow : ActorCode
slow = record {
  Self = ℕ;
  Message = ℕ;
  Ask = ℕ;
  Answer = ℕ;
  World = ℕ;
  Task = ℕ;
  AskTask = ℕ × ℕ;
  AnswerTask = ℕ;
  on_initialize = keeps;
  on_start = keeps;
  on_sleep = keeps;
  on_hibernate = keeps;
  on_stop = keeps;
  on_notify = λ m self world. keeps self world;
  on_request = λ m self world. (Response.defer (self, m), world);
  poll_task = λ t world. (Polled.ready t, world);
  poll_ask = waits;
}
  where
    waits : ℕ × ℕ → ℕ → Polled (ℕ × ℕ) (ℕ × ℕ) × ℕ
    waits (self, zero) world = (Polled.ready (suc self, self), world)
    waits (self, suc n) world = (Polled.pending (self, n), suc world)

abbrev at_once : ℕ → Polled ℕ ℕ
at_once n = Polled.ready n

abbrev mailbox : Fifo (Item slow)
mailbox = list_fifo 16

abbrev at_rest : Context slow mailbox
at_rest = record { actor = some 5; current = none; items = []; in_flight = false; flag = waiting }

request-Answering_example :
    (d : Context slow mailbox) × (x : Sent slow) × (request slow mailbox 2 9 at_rest ≡ done d)
    × EndsWith slow at_once mailbox 6 2 x
        (happen_all slow mailbox 2 (poll_times slow at_once mailbox 3) d 0)
    × HandleCase slow at_once mailbox x 9 5 0 (1 ∷ 2 ∷ []) 3
request-Answering_example =
    request-Answering slow at_once mailbox 2 9 5 6 5 0 2 2 0 at_rest (1 ∷ 2 ∷ []) 3
      (deferred refl (later refl (later refl (now refl)))) (omega arith) refl refl refl
