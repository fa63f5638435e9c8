-- ===== src/Sync/Signal.antt =====
-- src/synchronization/signal.rs: a slot for one value, with one waiting task. A waker is a number that
-- names its task; each operation runs in a critical section.
use drogue_device.Base.{
  ℕ, ◌≡◌, refl, Bool, true, false, ◌==◌, if◌then◌else◌, Option, none, some, List, [], ◌∷◌, arith,
}

pub data State {ℓ} (T : Type ℓ) : Type ℓ where
  empty : State T
  waiting : ℕ → State T
  signaled : T → State T

pub data Poll {ℓ} (T : Type ℓ) : Type ℓ where
  ready : T → Poll T
  pending : Poll T

module _ {ℓ} {T : Type ℓ} where
  abbrev woken : State T → Option ℕ
  woken (waiting waker) = some waker
  woken _ = none

  -- The new state, and the waker that is woken.
  unfoldable pub signal : T → State T → State T × Option ℕ
  signal val state = (signaled val, woken state)

  unfoldable pub reset : State T → State T
  reset state = empty

  -- A second waker is not kept ("waker overflow"): `will_wake` or not, the state stays.
  unfoldable pub poll_wait : ℕ → State T → State T × Poll T
  poll_wait waker empty = (waiting waker, pending)
  poll_wait waker (waiting w) = (if w == waker then waiting w else waiting w, pending)
  poll_wait waker (signaled val) = (empty, ready val)

  unfoldable pub is_signaled : State T → Bool
  is_signaled (signaled val) = true
  is_signaled _ = false

pub data Op {ℓ} (T : Type ℓ) : Type ℓ where
  signals : T → Op T
  resets : Op T
  polls : ℕ → Op T

-- What a client sees of a call: the value that a poll returns, and the task that a signal wakes.
pub data Seen {ℓ} (T : Type ℓ) : Type ℓ where
  wakes : Option ℕ → Seen T
  nothing : Seen T
  polled : Poll T → Seen T

module _ {ℓ} {T : Type ℓ} where
  unfoldable pub step : Op T → State T → State T × Seen T
  unfolding signal reset poll_wait
  step (signals val) state = let (s, w) = signal val state in (s, wakes w)
  step resets state = (reset state, nothing)
  step (polls waker) state = let (s, p) = poll_wait waker state in (s, polled p)

  pub run : List (Op T) → State T → List (Seen T)
  unfolding step
  run [] state = []
  run (op ∷ ops) state = let (s, seen) = step op state in seen ∷ run ops s

-- A slot holds the last value that was signaled and not taken, and apart from it the first task that
-- has waited since the last change.
pub record Slot {ℓ} (T : Type ℓ) : Type ℓ where
  pub value : Option T
  pub first : Option ℕ

abbrev first_of_two : Option ℕ → ℕ → Option ℕ
first_of_two none waker = some waker
first_of_two (some w) waker = some w

module _ {ℓ} {T : Type ℓ} where
  -- The promise of a signal, by what its clients see.
  pub slot_step : Op T → Slot T → Slot T × Seen T
  slot_step (signals val) s = (record { value = some val; first = none }, wakes s.first)
  slot_step resets s = (record { value = none; first = none }, nothing)
  slot_step (polls waker) s = take s.value
    where
      take : Option T → Slot T × Seen T
      take none = (record { value = none; first = first_of_two s.first waker }, polled pending)
      take (some val) = (record { value = none; first = none }, polled (ready val))

  pub slot_run : List (Op T) → Slot T → List (Seen T)
  slot_run [] s = []
  slot_run (op ∷ ops) s = let (t, seen) = slot_step op s in seen ∷ slot_run ops t

  abbrev slot : State T → Slot T
  slot empty = record { value = none; first = none }
  slot (waiting w) = record { value = none; first = some w }
  slot (signaled val) = record { value = some val; first = none }

  step_refines :
      (op : Op T) (state : State T)
      → (slot (step op state).0 ≡ (slot_step op (slot state)).0)
        × ((step op state).1 ≡ (slot_step op (slot state)).1)
  unfolding step slot_step
  step_refines (signals val) empty = (refl, refl)
  step_refines (signals val) (waiting w) = (refl, refl)
  step_refines (signals val) (signaled v) = (refl, refl)
  step_refines resets state = (refl, refl)
  step_refines (polls waker) empty = (refl, refl)
  step_refines (polls waker) (waiting w) = (ground arith, refl)
  step_refines (polls waker) (signaled v) = (refl, refl)

  -- For every sequence of signal, reset and poll_wait from any state, the values that the polls
  -- return and the wakers that the signals call are those of a slot that holds the last value
  -- signaled and not yet taken and the first task that waits since the last change.
  pub run_refines :
      (ops : List (Op T)) (state : State T) → run ops state ≡ slot_run ops (slot state)
  unfolding run slot_run
  run_refines [] state = refl
  run_refines (op ∷ ops) state =
      let (same_state, same_seen) = step_refines op state in
      rw (run_refines ops (step op state).0, same_state, same_seen)
