-- ===== src/Supervisor/Executor/Quiescence.antt =====
-- The run of the executor ends when no actor is ready.
use native.Mathlib.Nat.{add-zero}
use drogue_device.Base.{
  ℕ, zero, suc, ◌+◌, ◌≤◌, ◌<◌, ◌≡◌, ◌≢◌, refl, ap, ◌∙◌, Bool, true, false, some, List, [], ◌∷◌,
  length, Outcome, done, panic, arith,
}
use drogue_device.Actor.Context.{ActorState, idle, waiting, ready}
use drogue_device.Supervisor.Executor.{
  System, state_at, store, wake, signal, after_do_poll, poll_state, poll, then_pass, pass,
  after_pass, run_until_quiescence,
}

abbrev pub is_one : ActorState → ℕ
is_one ready = 1
is_one _ = 0

-- The number of flags that are READY.
abbrev pub readies : List ActorState → ℕ
readies [] = 0
readies (state ∷ states) = is_one state + readies states

is_one-bound : (state : ActorState) → is_one state ≤ 1
is_one-bound ready = omega arith
is_one-bound waiting = omega arith
is_one-bound idle = omega arith

length-store :
    (to : ActorState) (i : ℕ) (states : List ActorState)
    → length (store to i states) ≡ length states
length-store to i [] = refl
length-store to zero (state ∷ states) = refl
length-store to (suc i) (state ∷ states) = omega (arith, length-store to i states)

readies-store_ready :
    (i : ℕ) (states : List ActorState) → readies (store ready i states) ≤ readies states + 1
readies-store_ready i [] = omega arith
readies-store_ready zero (state ∷ states) = omega arith
readies-store_ready (suc i) (state ∷ states) = omega (arith, readies-store_ready i states)

length-wake :
    (woken : List ℕ) (states : List ActorState) → length (wake woken states) ≡ length states
length-wake [] states = refl
length-wake (i ∷ woken) states =
    omega (arith, length-wake woken (store ready i states), length-store ready i states)

readies-wake :
    (woken : List ℕ) (states : List ActorState)
    → readies (wake woken states) ≤ readies states + length woken
readies-wake [] states = omega arith
readies-wake (i ∷ woken) states =
    omega (arith, readies-wake woken (store ready i states), readies-store_ready i states)

store-stays :
    (i : ℕ) (k : ℕ) (states : List ActorState)
    → state_at i states ≡ ready
    → state_at i (store ready k states) ≡ ready
store-stays i k [] h = h
store-stays zero zero (state ∷ states) h = refl
store-stays zero (suc k) (state ∷ states) h = h
store-stays (suc i) zero (state ∷ states) h = h
store-stays (suc i) (suc k) (state ∷ states) h = store-stays i k states h

pub wake-stays :
    (i : ℕ) (woken : List ℕ) (states : List ActorState)
    → state_at i states ≡ ready
    → state_at i (wake woken states) ≡ ready
wake-stays i [] states h = h
wake-stays i (k ∷ woken) states h =
    wake-stays i woken (store ready k states) (store-stays i k states h)

readies-store-signal :
    (b : Bool) (i : ℕ) (states : List ActorState)
    → state_at i states ≡ ready
    → readies (store (signal b) i states) + 1 ≡ readies states
readies-store-signal b i [] h = ground arith
readies-store-signal true zero (state ∷ states) h = rw h (omega arith)
readies-store-signal false zero (state ∷ states) h = rw h (omega arith)
readies-store-signal b (suc i) (state ∷ states) h = omega (arith, readies-store-signal b i states h)

module _ {World : Type 0} where
  abbrev pub Quiet : ℕ → Outcome (System World) → Type 0
  Quiet count panic = Unit {0}
  Quiet count (done s) =
      (length s.states ≡ count) × ((k : ℕ) → k < count → state_at k s.states ≢ ready)

-- The wake-ups that a poll makes are paid for by `rank`.
module _ {World : Type 0} (rank : World → ℕ) where
  abbrev pub Pays : World → Outcome (Bool × World × List ℕ) → Type 0
  Pays world panic = Unit {0}
  Pays world (done (b, world', woken)) = length woken + rank world' ≤ rank world

  abbrev pub due : System World → ℕ
  due s = readies s.states + rank s.world

module _ {World : Type 0} (do_poll : ℕ → World → Outcome (Bool × World × List ℕ)) (rank : World → ℕ)
    (pays : (i : ℕ) (world : World) → Pays rank world (do_poll i world)) where
  -- After a visit of actors: fewer are due if one was polled, and nothing has changed if none was.
  abbrev Passed : (count i : ℕ) → System World → Outcome (Bool × System World) → Type 0
  Passed count i s panic = Unit {0}
  Passed count i s (done (true, s')) =
      (due rank s' < due rank s) × (length s'.states ≡ length s.states)
  Passed count i s (done (false, s')) =
      (s' ≡ s) × ((k : ℕ) → k < count → state_at (k + i) s.states ≢ ready)

  poll-Passed : (i : ℕ) (s : System World) → Passed 1 i s (poll do_poll i s)
  unfolding poll
  poll-Passed i s = by_state (state_at i s.states) refl
    where
      polled :
          (r : Outcome (Bool × World × List ℕ))
          → Pays rank s.world r
          → state_at i s.states ≡ ready
          → Passed 1 i s (after_do_poll do_poll i s r)
      polled panic h e = tt
      polled (done (b, world, woken)) h e = (
        omega (
          arith,
          h,
          readies-wake woken s.states,
          readies-store-signal b i (wake woken s.states) (wake-stays i woken s.states e),
        ),
        omega (arith, length-store (signal b) i (wake woken s.states), length-wake woken s.states),
      )

      by_state :
          (state : ActorState)
          → state_at i s.states ≡ state
          → Passed 1 i s (poll_state do_poll i s state)
      by_state ready e = polled (do_poll i s.world) (pays i s.world) e
      by_state waiting e = (refl, λ k l f. ground (arith, e, f, l))
      by_state idle e = (refl, λ k l f. ground (arith, e, f, l))

  pass-Passed : (count i : ℕ) (s : System World) → Passed count i s (pass do_poll count i s)
  unfolding pass
  pass-Passed zero i s = (refl, λ k l. absurd (omega (arith, l)))
  pass-Passed (suc count) i s =
      first (poll do_poll i s) (poll-Passed i s) (λ t. pass-Passed count (suc i) t)
    where
      then_rest :
          (b : Bool) (t : System World)
          → Passed 1 i s (done (b, t))
          → (r : Outcome (Bool × System World)) → Passed count (suc i) t r
          → Passed (suc count) i s (then_pass do_poll (λ _. r) (done (b, t)))
      then_rest b t h panic g = tt
      then_rest true t h (done (true, u)) g = (omega (arith, h.0, g.0), g.1 ∙ h.1)
      then_rest true t h (done (false, u)) g =
          (omega (arith, h.0, ap (due rank) g.0), ap (λ x. length x.states) g.0 ∙ h.1)
      then_rest false t h (done (true, u)) g =
          (omega (arith, ap (due rank) h.0, g.0), g.1 ∙ ap (λ x. length x.states) h.0)
      then_rest false t h (done (false, u)) g = (g.0 ∙ h.0, none_ready)
        where
          none_ready : (k : ℕ) → k < suc count → state_at (k + i) s.states ≢ ready
          none_ready zero l e = h.1 0 (omega arith) e
          none_ready (suc k) l e =
              g.1 k (omega (arith, l))
                (let same : k + suc i ≡ suc k + i = omega arith in rw (same, h.0) e)

      first :
          (r : Outcome (Bool × System World))
          → Passed 1 i s r
          → ((t : System World) → Passed count (suc i) t (pass do_poll count (suc i) t))
          → Passed (suc count) i s (then_pass do_poll (pass do_poll count (suc i)) r)
      first panic h ih = tt
      first (done (b, t)) h ih = then_rest b t h (pass do_poll count (suc i) t) (ih t)

  -- If a measure of the world pays for every wake-up that a poll makes (each poll that does not
  -- panic lowers it by at least the number of flags that it stores READY in), then with more fuel
  -- than the measure and the number of ready actors together, run_until_quiescence ends: it
  -- panics, or it returns with as many actors as before, none of them ready.
  pub run_until_quiescence-Quiet :
      (fuel : ℕ) (s : System World)
      → due rank s < fuel
      → (o : Outcome (System World)) × (run_until_quiescence do_poll fuel s ≡ some o)
        × Quiet (length s.states) o
  unfolding run_until_quiescence
  run_until_quiescence-Quiet zero s h = absurd (omega arith)
  run_until_quiescence-Quiet (suc fuel) s h =
      after (pass do_poll (length s.states) 0 s) (pass-Passed (length s.states) 0 s)
        (λ t l. run_until_quiescence-Quiet fuel t l)
    where
      after :
          (r : Outcome (Bool × System World))
          → Passed (length s.states) 0 s r
          → ((t : System World)
              → due rank t < fuel
              → (o : Outcome (System World)) × (run_until_quiescence do_poll fuel t ≡ some o)
                × Quiet (length t.states) o)
          → (o : Outcome (System World)) × (after_pass do_poll (run_until_quiescence do_poll fuel) r
              ≡ some o)
            × Quiet (length s.states) o
      after panic g ih = (panic, refl, tt)
      after (done (true, t)) g ih =
          let (o, e, q) = ih t (omega (arith, h, g.0)) in (o, e, rw (← g.1) q)
      after (done (false, t)) g ih = (
        done t,
        refl,
        (ap (λ x. length x.states) g.0, λ k l. rw g.0 (rw (add-zero k) at (g.1 k l))),
      )
