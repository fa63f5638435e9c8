-- ===== src/Driver/I2c.antt =====
-- src/driver/i2c/mod.rs: `I2cPeripheral`, an actor around an I2C bus. The bus is a parameter: the traits
-- `Read`, `Write` and `WriteRead` of embedded-hal, whose buffers are given by their length.
pub mod Replies
mod Tests
use drogue_device.Base.{ℕ, List, [], ◌∷◌, Result, ok, err}
use drogue_device.Actor.Code.{Completion, Response, Polled, ActorCode}

pub record I2cBus : Type 1 where
  pub Bus : Type 0
  pub Fault : Type 0
  pub read : (address room : ℕ) → Bus → Result (List ℕ) Fault × Bus
  pub write : (address : ℕ) → List ℕ → Bus → Result (Unit {0}) Fault × Bus
  pub write_read : (address : ℕ) → List ℕ → (room : ℕ) → Bus → Result (List ℕ) Fault × Bus

-- The three messages. A buffer that is filled comes back with the answer.
pub data Message : Type 0 where
  i2c_read : (address room : ℕ) → Message
  i2c_write : (address : ℕ) → List ℕ → Message
  i2c_write_read : (address : ℕ) → List ℕ → (room : ℕ) → Message

module _ (I : I2cBus) where
  abbrev filled : Result (Unit {0}) I.Fault × I.Bus → Result (List ℕ) I.Fault × I.Bus
  filled (ok done, bus) = (ok [], bus)
  filled (err e, bus) = (err e, bus)

  -- What a message does to the bus, with its answer.
  abbrev pub serve : Message → I.Bus → Result (List ℕ) I.Fault × I.Bus
  serve (i2c_read address room) bus = I.read address room bus
  serve (i2c_write address bytes) bus = filled (I.write address bytes bus)
  serve (i2c_write_read address bytes room) bus = I.write_read address bytes room bus

  abbrev respond :
      Unit {0}
      → Result (List ℕ) I.Fault × I.Bus
      → Response (Unit {0}) (Result (List ℕ) I.Fault) ⊥ ⊥ × I.Bus
  respond self (result, bus) = (Response.immediate self result, bus)

  -- The three `on_request`. The peripheral has no state but the bus.
  unfoldable pub on_request :
      Message → Unit {0} → I.Bus → Response (Unit {0}) (Result (List ℕ) I.Fault) ⊥ ⊥ × I.Bus
  on_request message self bus = respond self (serve message bus)

  abbrev at_once : Unit {0} → I.Bus → Completion (Unit {0}) ⊥ × I.Bus
  at_once self bus = (Completion.immediate self, bus)

  abbrev pub code : ActorCode
  code = record {
    Self = Unit {0};
    Message = ⊥;
    Ask = Message;
    Answer = Result (List ℕ) I.Fault;
    World = I.Bus;
    Task = ⊥;
    AskTask = ⊥;
    AnswerTask = ⊥;
    on_initialize = at_once;
    on_start = at_once;
    on_sleep = at_once;
    on_hibernate = at_once;
    on_stop = at_once;
    on_notify = λ m self bus. absurd m;
    on_request = on_request;
    poll_task = λ t bus. absurd t;
    poll_ask = λ t bus. absurd t;
  }
