-- ===== src/Driver/Timer.antt =====
-- src/driver/timer/mod.rs: the timer actor, which multiplexes one hardware timer (`HalTimer`). Times
-- are in milliseconds. A schedule is its expiration with what it notifies, and a waker a number.
pub mod Deadline
pub mod Invariant
pub mod Delay
pub mod Future
use drogue_device.Base.{
  ℕ, zero, suc, ◌+◌, ◌-◌, Bool, true, false, ltb, leb, ◌==◌, if◌then◌else◌, Option, none, some,
  List, [], ◌∷◌, ◌++◌, Outcome, done, panic, ◌>>=◌, unwrap,
}
use drogue_device.Driver.Cell.{RefCell, cell, borrow, borrow_mut}

pub record DelayDeadline : Type 0 where
  pub expiration : ℕ
  pub waker : Option ℕ

pub record ScheduleDeadline (E : Type 0) : Type 0 where
  pub expiration : ℕ
  pub event : E

pub record Shared (E : Type 0) : Type 0 where
  pub current_deadline : RefCell (Option ℕ)
  pub delay_deadlines : RefCell (List (Option DelayDeadline))
  pub schedule_deadlines : RefCell (List (Option (ScheduleDeadline E)))

-- The trait `Timer` of the hardware timers, which `start` may refuse with a panic.
pub record HalTimer : Type 1 where
  pub Timer : Type 0
  pub start : (duration : ℕ) → Timer → Outcome Timer
  pub clear_update_interrupt_flag : Timer → Timer

-- What the timer has done to the rest of the system, in order: the hardware was started, a task was
-- woken, an actor was notified.
pub data Effect (E : Type 0) : Type 0 where
  starts : ℕ → Effect E
  wakes : ℕ → Effect E
  notifies : E → Effect E

-- The answer to a `Delay` request: the future of a slot, or at once if there is none.
pub data Delayed : Type 0 where
  future : ℕ → Delayed
  at_once : Delayed

abbrev pub behind : Option ℕ → Option ℕ
behind none = none
behind (some i) = some (suc i)

abbrev pub remaining : (expired expiration : ℕ) → ℕ
remaining expired expiration = if leb expired expiration then expiration - expired else 0

abbrev pub sooner : Option ℕ → ℕ → Option ℕ
sooner none expiration = some expiration
sooner (some soonest) expiration = if ltb expiration soonest then some expiration else some soonest

module _ {A : Type 0} where
  -- The index of the first slot that is `None`.
  unfoldable pub first_free : List (Option A) → Option ℕ
  first_free [] = none
  first_free (none ∷ slots) = some 0
  first_free (some a ∷ slots) = behind (first_free slots)

  unfoldable pub put : ℕ → A → List (Option A) → List (Option A)
  put i a [] = []
  put zero a (slot ∷ slots) = some a ∷ slots
  put (suc i) a (slot ∷ slots) = slot ∷ put i a slots

  abbrev pub free_slots : ℕ → List (Option A)
  free_slots zero = []
  free_slots (suc n) = none ∷ free_slots n

module _ {E : Type 0} where
  unfoldable pub new : Shared E
  new = record {
    current_deadline = cell none;
    delay_deadlines = cell (free_slots 16);
    schedule_deadlines = cell (free_slots 16);
  }

  -- The new current deadline, and the hardware timer if it is started.
  unfoldable pub start_shorter : ℕ → Option ℕ → Option ℕ × List (Effect E)
  start_shorter ms none = (some ms, starts ms ∷ [])
  start_shorter ms (some current) =
      if ltb ms current then (some ms, starts ms ∷ []) else (some current, [])

  abbrev delay_in :
      ℕ
      → Shared E
      → RefCell (List (Option DelayDeadline))
      → Option ℕ
      → Outcome (Delayed × Shared E × List (Effect E))
  delay_in ms s deadlines none =
      done (at_once, record s { delay_deadlines = cell deadlines.value }, [])
  delay_in ms s deadlines (some index) = do
    slots ← borrow_mut deadlines
    current ← borrow s.current_deadline
    current' ← borrow_mut current
    let (deadline, effects) = start_shorter ms current'.value
    done (
      future index,
      record s {
        delay_deadlines = cell (put index (record { expiration = ms; waker = none }) slots.value);
        current_deadline = cell deadline;
      },
      effects,
    )

  -- `TimerActor::on_request`. The borrow by which a free slot is found lives to the end.
  unfoldable pub on_request : ℕ → Shared E → Outcome (Delayed × Shared E × List (Effect E))
  on_request ms s = do
    deadlines ← borrow_mut s.delay_deadlines
    delay_in ms s deadlines (first_free deadlines.value)

  abbrev pub schedule_in : ℕ → E → Shared E → Option ℕ → Shared E × List (Effect E)
  schedule_in ms event s none = (s, [])
  schedule_in ms event s (some index) =
      let (deadline, effects) = start_shorter ms s.current_deadline.value in
      (
        record s {
          schedule_deadlines =
              cell
                (put index (record { expiration = ms; event = event }) s.schedule_deadlines.value);
          current_deadline = cell deadline;
        },
        effects,
      )

  -- `TimerActor::on_notify`: without a free slot the schedule is dropped.
  unfoldable pub on_notify : ℕ → E → Shared E → Outcome (Shared E × List (Effect E))
  on_notify ms event s = do
    deadlines ← borrow_mut s.schedule_deadlines
    current ← borrow_mut s.current_deadline
    done (
        schedule_in ms event
          (record s {
            schedule_deadlines = cell deadlines.value;
            current_deadline = cell current.value;
          })
          (first_free deadlines.value))

  abbrev pub keep_delay :
      Option DelayDeadline
      → Outcome (List (Option DelayDeadline) × Option ℕ × List (Effect E))
      → Outcome (List (Option DelayDeadline) × Option ℕ × List (Effect E))
  keep_delay slot panic = panic
  keep_delay slot (done (slots, next, effects)) = done (slot ∷ slots, next, effects)

  -- The loop over the delays; a due delay without a waker is a panic.
  unfoldable pub expire_delays :
      (expired : ℕ)
      → Option ℕ
      → List (Option DelayDeadline)
      → Outcome (List (Option DelayDeadline) × Option ℕ × List (Effect E))
  expire_delays expired next [] = done ([], next, [])
  expire_delays expired next (none ∷ slots) = keep_delay none (expire_delays expired next slots)
  expire_delays expired next (some d ∷ slots) =
      let left = remaining expired d.expiration in
      let woken = expire_delays expired next slots in
      let kept = expire_delays expired (sooner next left) slots in
      if left == 0
      then (do
        waker ← unwrap d.waker
        (slots', next', effects) ← woken
        done (
          some (record { expiration = left; waker = none }) ∷ slots',
          next',
          wakes waker ∷ effects,
        ))
      else keep_delay (some (record d { expiration = left })) kept

  abbrev pub after_slot :
      Option (ScheduleDeadline E)
      → List (Effect E)
      → List (Option (ScheduleDeadline E)) × Option ℕ × List (Effect E)
      → List (Option (ScheduleDeadline E)) × Option ℕ × List (Effect E)
  after_slot slot run (slots, next, effects) = (slot ∷ slots, next, run ++ effects)

  -- The loop over the schedules.
  unfoldable pub expire_schedules :
      (expired : ℕ)
      → Option ℕ
      → List (Option (ScheduleDeadline E))
      → List (Option (ScheduleDeadline E)) × Option ℕ × List (Effect E)
  expire_schedules expired next [] = ([], next, [])
  expire_schedules expired next (none ∷ slots) =
      after_slot none [] (expire_schedules expired next slots)
  expire_schedules expired next (some d ∷ slots) =
      let left = remaining expired d.expiration in
      let run = expire_schedules expired next slots in
      let kept = expire_schedules expired (sooner next left) slots in
      if left == 0
      then after_slot none (notifies d.event ∷ []) run
      else after_slot (some (record d { expiration = left })) [] kept

  abbrev pub start_next : Option ℕ → Option ℕ × List (Effect E)
  start_next none = (none, [])
  start_next (some next) = if ltb 0 next then (some next, starts next ∷ []) else (none, [])

  -- `TimerActor::on_interrupt`. Clearing the update flag of the hardware is left out.
  unfoldable pub on_interrupt : Shared E → Outcome (Shared E × List (Effect E))
  on_interrupt s = do
    current ← borrow s.current_deadline
    expired ← unwrap current.value
    delays ← borrow_mut s.delay_deadlines
    (delays', next, woken) ← expire_delays expired none delays.value
    schedules ← borrow_mut s.schedule_deadlines
    let (schedules', next', run) = expire_schedules expired next schedules.value
    written ← borrow_mut s.current_deadline
    let (deadline, started) = start_next next'
    done (
      record {
        current_deadline = cell deadline;
        delay_deadlines = cell delays';
        schedule_deadlines = cell schedules';
      },
      woken ++ run ++ started,
    )
