-- ===== src/Driver/Timer/Deadline.antt =====
-- The schedules of the timer: the deadline that the hardware counts to is the least of them.
use drogue_device.Base.{
  ℕ, zero, suc, ◌-◌, ◌<◌, ◌≡◌, refl, ap, ◌∙◌, inl, inr, Bool, true, false, leb, ◌==◌, if◌then◌else◌,
  Option, none, some, List, [], ◌∷◌, done, arith, Bool-cases,
}
use drogue_device.Driver.Timer.{
  ScheduleDeadline, DelayDeadline, Effect, notifies, first_free, put, behind, start_shorter,
  remaining, sooner, expire_delays, expire_schedules,
}

-- The soonest of `next` and a list of expirations.
abbrev pub least : Option ℕ → List ℕ → Option ℕ
least next [] = next
least next (e ∷ es) = least (sooner next e) es

abbrev pub AllPositive : List ℕ → Type 0
AllPositive [] = Unit {0}
AllPositive (e ∷ es) = (0 < e) × AllPositive es

-- The expirations that lie behind `expired`, counted from there.
abbrev pub later : (expired : ℕ) → List ℕ → List ℕ
later expired [] = []
later expired (e ∷ es) =
    if leb e expired then later expired es else (e - expired) ∷ later expired es

sooner_comm : (next : Option ℕ) (a b : ℕ) → sooner (sooner next a) b ≡ sooner (sooner next b) a
sooner_comm none a b = ground arith
sooner_comm (some soonest) a b = ground arith

least-sooner :
    (next : Option ℕ) (e : ℕ) (es : List ℕ) → least (sooner next e) es ≡ sooner (least next es) e
least-sooner next e [] = refl
least-sooner next e (a ∷ es) =
    ap (λ n. least n es) (sooner_comm next e a) ∙ least-sooner (sooner next a) e es

abbrev pub Positive : Option ℕ → Type 0
Positive none = Unit {0}
Positive (some n) = 0 < n

sooner-Positive : (next : Option ℕ) (e : ℕ) → Positive next → 0 < e → Positive (sooner next e)
sooner-Positive none e p l = l
sooner-Positive (some n) e p l = ground arith

pub least-Positive :
    (next : Option ℕ) (es : List ℕ) → Positive next → AllPositive es → Positive (least next es)
least-Positive next [] p l = p
least-Positive next (e ∷ es) p l =
    least-Positive (sooner next e) es (sooner-Positive next e p l.0) l.1

pub later-AllPositive : (expired : ℕ) (es : List ℕ) → AllPositive (later expired es)
later-AllPositive expired [] = tt
later-AllPositive expired (e ∷ es) = go (leb e expired) refl (later-AllPositive expired es)
  where
    go :
        (b : Bool)
        → leb e expired ≡ b
        → AllPositive (later expired es)
        → AllPositive (if b then later expired es else (e - expired) ∷ later expired es)
    go true h p = p
    go false h p = (ground arith, p)

abbrev pub AllNone {ℓ} : {A : Type ℓ} → List (Option A) → Type 0
AllNone [] = Unit {0}
AllNone (none ∷ slots) = AllNone slots
AllNone (some a ∷ slots) = ⊥

pub start_shorter-sooner :
    (E : Type 0) (ms : ℕ) (current : Option ℕ)
    → (start_shorter {E = E} ms current).0 ≡ sooner current ms
unfolding start_shorter
start_shorter-sooner E ms none = refl
start_shorter-sooner E ms (some c) = ground arith

module _ {E : Type 0} where
  abbrev pub expirations : List (Option (ScheduleDeadline E)) → List ℕ
  expirations [] = []
  expirations (none ∷ slots) = expirations slots
  expirations (some d ∷ slots) = d.expiration ∷ expirations slots

  -- What is to be notified by `expired`, in the order of the slots.
  abbrev pub due : (expired : ℕ) → List (Option (ScheduleDeadline E)) → List (Effect E)
  due expired [] = []
  due expired (none ∷ slots) = due expired slots
  due expired (some d ∷ slots) =
      if leb d.expiration expired then notifies d.event ∷ due expired slots else due expired slots

  -- The loop over the schedules notifies those that are due and keeps the others.
  abbrev pub Expires :
      ℕ
      → Option ℕ
      → List (Option (ScheduleDeadline E))
      → List (Option (ScheduleDeadline E)) × Option ℕ × List (Effect E)
      → Type 0
  Expires expired next slots (slots', next', effects) =
      (expirations slots' ≡ later expired (expirations slots))
      × (next' ≡ least next (expirations slots'))
      × (effects ≡ due expired slots)

  pub expire_schedules-Expires :
      (expired : ℕ) (next : Option ℕ) (slots : List (Option (ScheduleDeadline E)))
      → Expires expired next slots (expire_schedules expired next slots)
  unfolding expire_schedules
  expire_schedules-Expires expired next [] = (refl, refl, refl)
  expire_schedules-Expires expired next (none ∷ slots) = expire_schedules-Expires expired next slots
  expire_schedules-Expires expired next (some d ∷ slots) =
      elim (Bool-cases (leb d.expiration expired)) [
        | inl h ↦
            let (a, b, c) = expire_schedules-Expires expired next slots in
            let zero_left : remaining expired d.expiration ≡ 0 = ground arith in
            rw (h, zero_left) (a, b, ap (λ es. notifies d.event ∷ es) c)
        | inr h ↦
            let left = remaining expired d.expiration in
            let (a, b, c) = expire_schedules-Expires expired (sooner next left) slots in
            let is_left : left ≡ d.expiration - expired = ground arith in
            let more : left == 0 ≡ false = ground arith in
            rw (h, more)
              (
                ap (λ e. e ∷ expirations (expire_schedules expired (sooner next left) slots).0)
                      is_left
                    ∙ ap (λ es. (d.expiration - expired) ∷ es) a,
                b,
                c,
              )
      ]

  pub expire_delays-AllNone :
      (expired : ℕ) (next : Option ℕ) (slots : List (Option DelayDeadline))
      → AllNone slots
      → expire_delays {E = E} expired next slots ≡ done (slots, next, [])
  unfolding expire_delays
  expire_delays-AllNone expired next [] h = refl
  expire_delays-AllNone expired next (none ∷ slots) h =
      rw (expire_delays-AllNone expired next slots h) refl
  expire_delays-AllNone expired next (some d ∷ slots) h = absurd h

  pub least-put :
      (next : Option ℕ) (d : ScheduleDeadline E) (slots : List (Option (ScheduleDeadline E)))
      (i : ℕ)
      → first_free slots ≡ some i
      → (least next (expirations (put i d slots))
          ≡ sooner (least next (expirations slots)) d.expiration)
        × (AllPositive (expirations slots)
            → 0 < d.expiration
            → AllPositive (expirations (put i d slots)))
  unfolding first_free put
  least-put next d [] i h = ground arith
  least-put next d (none ∷ slots) zero h =
      (least-sooner next d.expiration (expirations slots), λ p l. (l, p))
  least-put next d (none ∷ slots) (suc i) h = ground arith
  least-put next d (some a ∷ slots) zero h = absurd (behind_zero (first_free slots) h)
    where
      behind_zero : (o : Option ℕ) → behind o ≡ some 0 → ⊥
      behind_zero none e = ground arith
      behind_zero (some j) e = ground arith
  least-put next d (some a ∷ slots) (suc i) h =
      let (same, positive) =
        least-put (sooner next a.expiration) d slots i (behind_suc (first_free slots) h) in
      (same, λ p l. (p.0, positive p.1 l))
    where
      behind_suc : (o : Option ℕ) → behind o ≡ some (suc i) → o ≡ some i
      behind_suc none e = ground arith
      behind_suc (some j) e = ground arith
