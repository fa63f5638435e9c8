-- ===== src/Supervisor/Executor.antt =====
-- src/supervisor/actor_executor.rs: `Supervised` and `ActorExecutor`. An actor is named by its index
-- among the actors, and its code is a parameter (`dyn ActiveActor`): a poll gives whether it was
-- `Ready`, the new state of the system, and the actors whose flags it stores READY in, by a message or
-- by a waker.
pub mod Quiescence
pub mod Erased
pub mod Keeps
pub mod Actors
mod Tests
use drogue_device.Base.{
  ℕ, zero, suc, ◌+◌, Bool, true, false, ◌||◌, ltb, if◌then◌else◌, Option, none, some, List, [], ◌∷◌,
  ◌++◌, length, Outcome, done, panic, ◌>>=◌,
}
use drogue_device.Actor.Code.{Lifecycle, initialize, start}
use drogue_device.Actor.Context.{ActorState, idle, waiting, ready}

-- `actors` of the executor, each by its state flag.
pub record System (World : Type 0) : Type 0 where
  pub states : List ActorState
  pub world : World

abbrev pub state_at : ℕ → List ActorState → ActorState
state_at i [] = idle
state_at zero (state ∷ states) = state
state_at (suc i) (state ∷ states) = state_at i states

abbrev pub store : ActorState → ℕ → List ActorState → List ActorState
store to i [] = []
store to zero (state ∷ states) = to ∷ states
store to (suc i) (state ∷ states) = state ∷ store to i states

-- `wake_by_ref` of VTABLE, for each of the flags.
abbrev pub wake : List ℕ → List ActorState → List ActorState
wake [] states = states
wake (i ∷ woken) states = wake woken (store ready i states)

-- `signal_idle` or `signal_waiting`
abbrev pub signal : Bool → ActorState
signal true = idle
signal false = waiting

abbrev max_actors : ℕ
max_actors = 16

module _ {World : Type 0} where
  -- A full vector is a panic, "too many actors". The flag is what `state_flag_handle` points to.
  unfoldable pub activate_actor : System World → Outcome (ℕ × System World)
  activate_actor s =
      if ltb (length s.states) max_actors
      then done (length s.states, record s { states = s.states ++ ready ∷ [] })
      else panic

module _ {World : Type 0} (do_poll : ℕ → World → Outcome (Bool × World × List ℕ)) where
  abbrev pub after_do_poll :
      ℕ → System World → Outcome (Bool × World × List ℕ) → Outcome (Bool × System World)
  after_do_poll i s panic = panic
  after_do_poll i s (done (b, world, woken)) =
      done (true, record { states = store (signal b) i (wake woken s.states); world = world })

  abbrev pub poll_state : ℕ → System World → ActorState → Outcome (Bool × System World)
  poll_state i s ready = after_do_poll i s (do_poll i s.world)
  poll_state i s waiting = done (false, s)
  poll_state i s idle = done (false, s)

  -- `Supervised::poll`, which an idle actor is not asked for.
  unfoldable pub poll : ℕ → System World → Outcome (Bool × System World)
  poll i s = poll_state i s (state_at i s.states)

  abbrev pub then_pass :
      (System World → Outcome (Bool × System World))
      → Outcome (Bool × System World)
      → Outcome (Bool × System World)
  then_pass rest panic = panic
  then_pass rest (done (polled, s)) = do (again, s') ← rest s; done (polled || again, s')

  -- The `for` loop, from actor `i` on.
  unfoldable pub pass : (count i : ℕ) → System World → Outcome (Bool × System World)
  pass zero i s = done (false, s)
  pass (suc count) i s = then_pass (pass count (suc i)) (poll i s)

  abbrev pub after_pass :
      (System World → Option (Outcome (System World)))
      → Outcome (Bool × System World)
      → Option (Outcome (System World))
  after_pass again panic = some panic
  after_pass again (done (true, s)) = again s
  after_pass again (done (false, s)) = some (done s)

  -- The `while` loop; `none` when the fuel runs out.
  unfoldable pub run_until_quiescence : ℕ → System World → Option (Outcome (System World))
  run_until_quiescence zero s = none
  run_until_quiescence (suc fuel) s =
      after_pass (run_until_quiescence fuel) (pass (length s.states) 0 s)

module _ {World : Type 0} (lifecycle : Lifecycle → ℕ → World → Outcome (World × List ℕ)) where
  abbrev dispatch : Lifecycle → ℕ → System World → ActorState → Outcome (System World)
  dispatch event i s idle = done s
  dispatch event i s _ = do
    (world, woken) ← lifecycle event i s.world
    done (record { states = wake woken s.states; world = world })

  dispatch_from : (count i : ℕ) → Lifecycle → System World → Outcome (System World)
  dispatch_from zero i event s = done s
  dispatch_from (suc count) i event s = do
    s' ← dispatch event i s (state_at i s.states)
    dispatch_from count (suc i) event s'

  unfoldable pub dispatch_lifecycle_event : Lifecycle → System World → Outcome (System World)
  unfolding dispatch_from
  dispatch_lifecycle_event event s = dispatch_from (length s.states) 0 event s

  -- `run_forever` up to the end of the first run.
  unfoldable pub start_up :
      (do_poll : ℕ → World → Outcome (Bool × World × List ℕ))
      → ℕ
      → System World
      → Option (Outcome (System World))
  start_up do_poll fuel s =
      run (do s' ← dispatch_lifecycle_event initialize s; dispatch_lifecycle_event start s')
    where
      run : Outcome (System World) → Option (Outcome (System World))
      run panic = some panic
      run (done s') = run_until_quiescence do_poll fuel s'
