-- ===== src/Driver/Timer/Invariant.antt =====
-- The invariant of the timer over any sequence of schedules and interrupts.
use drogue_device.Base.{
  ℕ, ◌<◌, ◌≡◌, refl, sym, ap, ◌∙◌, Option, none, some, List, [], ◌∷◌, ◌++◌, Outcome, done, arith,
  ◌>>=◌,
}
use drogue_device.Driver.Cell.{cell, unused, borrow, borrow_mut}
use drogue_device.Driver.Timer.{
  ScheduleDeadline, Shared, Effect, starts, first_free, on_notify, on_interrupt, sooner,
  expire_schedules, start_next, schedule_in, new,
}
use drogue_device.Driver.Timer.Deadline.{
  least, AllPositive, later, Positive, least-Positive, later-AllPositive, expirations, due,
  expire_schedules-Expires, AllNone, expire_delays-AllNone, least-put, start_shorter-sooner,
}

module _ {E : Type 0} where
  -- No cell is borrowed, no delay is registered, and the current deadline is the least of the schedules.
  pub record IsTimed (s : Shared E) : Type 0 where
    pub current_unused : s.current_deadline.state ≡ unused
    pub delays_unused : s.delay_deadlines.state ≡ unused
    pub schedules_unused : s.schedule_deadlines.state ≡ unused
    pub no_delays : AllNone s.delay_deadlines.value
    pub positive : AllPositive (expirations s.schedule_deadlines.value)
    pub current : s.current_deadline.value ≡ least none (expirations s.schedule_deadlines.value)

  pub new-IsTimed : IsTimed new
  unfolding new
  new-IsTimed = record {
    current_unused = refl;
    delays_unused = refl;
    schedules_unused = refl;
    no_delays = tt;
    positive = tt;
    current = refl;
  }

  abbrev pub started : Option ℕ → List (Effect E)
  started none = []
  started (some ms) = starts ms ∷ []

  start_next-started :
      (next : Option ℕ) → Positive next → start_next {E = E} next ≡ (next, started next)
  start_next-started none p = refl
  start_next-started (some n) p = ground arith

  -- Under the invariant of the timer, on_interrupt with a current deadline does not panic: it
  -- notifies exactly the schedules that are due by that deadline, in the order of the slots,
  -- leaves the others with what is left of them, makes the least of these the new deadline, starts
  -- the hardware with it if there is one, and keeps the invariant.
  pub on_interrupt-IsTimed :
      (s : Shared E) (expired : ℕ)
      → IsTimed s
      → s.current_deadline.value ≡ some expired
      → (s' : Shared E) × (effects : List (Effect E)) × (on_interrupt s ≡ done (s', effects))
        × IsTimed s'
        × (expirations s'.schedule_deadlines.value
            ≡ later expired (expirations s.schedule_deadlines.value))
        × (effects ≡ due expired s.schedule_deadlines.value ++ started s'.current_deadline.value)
  unfolding on_interrupt borrow borrow_mut
  on_interrupt-IsTimed s expired v h =
      let (slots', next', run) = expire_schedules expired none s.schedule_deadlines.value in
      let (a, b, c) = expire_schedules-Expires expired none s.schedule_deadlines.value in
      let positive : AllPositive (expirations slots') =
        rw a (later-AllPositive expired (expirations s.schedule_deadlines.value)) in
      let to_start =
        start_next-started next' (rw b (least-Positive none (expirations slots') tt positive)) in
      (
        record {
          current_deadline = cell next';
          delay_deadlines = cell s.delay_deadlines.value;
          schedule_deadlines = cell slots';
        },
        run ++ started next',
        rw
            (
              v.current_unused,
              h,
              v.delays_unused,
              expire_delays-AllNone expired none s.delay_deadlines.value v.no_delays,
              v.schedules_unused,
              to_start,
            )
            refl,
        record {
          current_unused = refl;
          delays_unused = refl;
          schedules_unused = refl;
          no_delays = v.no_delays;
          positive = positive;
          current = b;
        },
        a,
        ap (λ es. es ++ started next') c,
      )

  schedule_in-IsTimed :
      (ms : ℕ) (event : E) (s : Shared E) (o : Option ℕ)
      → 0 < ms
      → IsTimed s
      → first_free s.schedule_deadlines.value ≡ o
      → IsTimed (schedule_in ms event s o).0
  schedule_in-IsTimed ms event s none l v h = v
  schedule_in-IsTimed ms event s (some i) l v h =
      let d : ScheduleDeadline E = record { expiration = ms; event = event } in
      let (same, positive) = least-put none d s.schedule_deadlines.value i h in
      record {
        current_unused = refl;
        delays_unused = v.delays_unused;
        schedules_unused = refl;
        no_delays = v.no_delays;
        positive = positive v.positive l;
        current =
            start_shorter-sooner E ms s.current_deadline.value
            ∙ ap (λ c. sooner c ms) v.current
            ∙ sym same;
      }

  pub on_notify-IsTimed :
      (ms : ℕ) (event : E) (s : Shared E)
      → 0 < ms
      → IsTimed s
      → (s' : Shared E) × (effects : List (Effect E)) × (on_notify ms event s ≡ done (s', effects))
        × IsTimed s'
  unfolding on_notify borrow_mut
  on_notify-IsTimed ms event s l v =
      let t : Shared E = record s {
        schedule_deadlines = cell s.schedule_deadlines.value;
        current_deadline = cell s.current_deadline.value;
      } in
      let w : IsTimed t = record {
        current_unused = refl;
        delays_unused = v.delays_unused;
        schedules_unused = refl;
        no_delays = v.no_delays;
        positive = v.positive;
        current = v.current;
      } in
      let r = schedule_in ms event t (first_free s.schedule_deadlines.value) in
      (
        r.0,
        r.1,
        rw (v.schedules_unused, v.current_unused) refl,
        schedule_in-IsTimed ms event t (first_free s.schedule_deadlines.value) l w refl,
      )

-- What happens to the timer: a schedule request, or the interrupt of the running hardware timer.
pub data Op (E : Type 0) : Type 0 where
  schedules : ℕ → E → Op E
  interrupts : Op E

module _ {E : Type 0} where
  -- The hardware timer runs only while there is a deadline.
  abbrev interrupt_if : Option ℕ → Shared E → Outcome (Shared E × List (Effect E))
  interrupt_if none s = done (s, [])
  interrupt_if (some expired) s = on_interrupt s

  abbrev pub apply : Op E → Shared E → Outcome (Shared E × List (Effect E))
  apply (schedules ms event) s = on_notify ms event s
  apply interrupts s = interrupt_if s.current_deadline.value s

  abbrev pub run : List (Op E) → Shared E → Outcome (Shared E × List (Effect E))
  run [] s = done (s, [])
  run (op ∷ ops) s = do (t, effects) ← apply op s; (u, more) ← run ops t; done (u, effects ++ more)

  abbrev pub Lasting : List (Op E) → Type 0
  Lasting [] = Unit {0}
  Lasting (schedules ms event ∷ ops) = (0 < ms) × Lasting ops
  Lasting (interrupts ∷ ops) = Lasting ops

  interrupt_if-IsTimed :
      (o : Option ℕ) (s : Shared E)
      → s.current_deadline.value ≡ o
      → IsTimed s
      → (t : Shared E) × (effects : List (Effect E)) × (interrupt_if o s ≡ done (t, effects))
        × IsTimed t
  interrupt_if-IsTimed none s h v = (s, [], refl, v)
  interrupt_if-IsTimed (some expired) s h v =
      let (t, effects, e, w, kept, more) = on_interrupt-IsTimed s expired v h in (t, effects, e, w)

  -- From a timer in which no cell is borrowed, no delay is registered and the current deadline is
  -- the least of the positive expirations of the schedules, any sequence of schedule requests with
  -- positive delays and of interrupts (which come while there is a deadline) runs without a panic
  -- and keeps that condition.
  pub run-IsTimed :
      (ops : List (Op E)) (s : Shared E)
      → Lasting ops
      → IsTimed s
      → (t : Shared E) × (effects : List (Effect E)) × (run ops s ≡ done (t, effects)) × IsTimed t
  run-IsTimed [] s l v = (s, [], refl, v)
  run-IsTimed (schedules ms event ∷ ops) s l v =
      let (t, effects, e, w) = on_notify-IsTimed ms event s l.0 v in
      let (u, more, e', w') = run-IsTimed ops t l.1 w in (u, effects ++ more, rw (e, e') refl, w')
  run-IsTimed (interrupts ∷ ops) s l v =
      let (t, effects, e, w) = interrupt_if-IsTimed s.current_deadline.value s refl v in
      let (u, more, e', w') = run-IsTimed ops t l w in (u, effects ++ more, rw (e, e') refl, w')
