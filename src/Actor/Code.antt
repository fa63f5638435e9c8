-- ===== src/Actor/Code.antt =====
-- src/handler.rs and the trait `Actor` of src/actor.rs: what an actor is made of. The actors are the
-- program's users; the runtime sees their handlers and their async blocks.

pub data Lifecycle : Type 0 where
  initialize start stop sleep hibernate : Lifecycle

-- `Completion<A>`: handled at once, or by an async block that owns the actor.
pub data Completion (Self Task : Type 0) : Type 0 where
  immediate : Self → Completion Self Task
  defer : Task → Completion Self Task

-- `Response<A, T>`
pub data Response (Self Answer AskTask AnswerTask : Type 0) : Type 0 where
  immediate : Self → Answer → Response Self Answer AskTask AnswerTask
  defer : AskTask → Response Self Answer AskTask AnswerTask
  immediate_future : Self → AnswerTask → Response Self Answer AskTask AnswerTask

-- The result of a poll; a pending async block goes on from a new state.
pub data Polled (A Task : Type 0) : Type 0 where
  ready : A → Polled A Task
  pending : Task → Polled A Task

-- An actor: its state, the messages that it handles, and the async blocks that its handlers return.
-- `World` is what handlers share with the rest of the system.
pub record ActorCode : Type 1 where
  pub Self : Type 0
  pub Message : Type 0
  pub Ask : Type 0
  pub Answer : Type 0
  pub World : Type 0
  pub Task : Type 0
  pub AskTask : Type 0
  pub AnswerTask : Type 0
  pub on_initialize : Self → World → Completion Self Task × World
  pub on_start : Self → World → Completion Self Task × World
  pub on_sleep : Self → World → Completion Self Task × World
  pub on_hibernate : Self → World → Completion Self Task × World
  pub on_stop : Self → World → Completion Self Task × World
  pub on_notify : Message → Self → World → Completion Self Task × World
  pub on_request : Ask → Self → World → Response Self Answer AskTask AnswerTask × World
  pub poll_task : Task → World → Polled Self Task × World
  pub poll_ask : AskTask → World → Polled (Self × Answer) AskTask × World
