-- ===== src/Supervisor/Executor/Erased.antt =====
-- A wake-up during a poll that is pending has no effect.
use drogue_device.Base.{
  ℕ, zero, suc, ◌≡◌, refl, Bool, true, false, List, [], ◌∷◌, Outcome, done, arith,
}
use drogue_device.Actor.Context.{ActorState, waiting, ready}
use drogue_device.Supervisor.Executor.{System, state_at, store, wake, poll}
use drogue_device.Supervisor.Executor.Quiescence.{wake-stays}

module _ {World : Type 0} (do_poll : ℕ → World → Outcome (Bool × World × List ℕ)) where
  -- After a poll of a ready actor that is pending, the flag of the actor is WAITING, even if its
  -- own waker was called during the poll.
  pub poll-erases :
      (i : ℕ) (s : System World) (world : World) (woken : List ℕ)
      → state_at i s.states ≡ ready
      → do_poll i s.world ≡ done (false, world, woken)
      → (t : System World) × (poll do_poll i s ≡ done (true, t)) × (state_at i t.states ≡ waiting)
  unfolding poll
  poll-erases i s world woken h e = (
    record { states = store waiting i (wake woken s.states); world = world },
    rw (h, e),
    state_at-store i (wake woken s.states) (wake-stays i woken s.states h),
  )
    where
      state_at-store :
          (i : ℕ) (states : List ActorState)
          → state_at i states ≡ ready
          → state_at i (store waiting i states) ≡ waiting
      state_at-store i [] h = ground arith
      state_at-store zero (state ∷ states) h = refl
      state_at-store (suc i) (state ∷ states) h = state_at-store i states h
