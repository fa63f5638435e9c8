-- ===== src/Driver/Timer/Future.antt =====
-- `DelayFuture` of src/driver/timer/mod.rs, by which a delay is awaited, with the two methods of
-- `Shared` that it calls.
use drogue_device.Base.{
  ℕ, Bool, true, false, ◌==◌, ==_iff, arith, if◌then◌else◌, Option, none, some, List, get_elem?,
  ◌≡◌, refl, ◌⊎◌, inl, inr, Bool-cases, Outcome, done, ◌>>=◌, unwrap, set,
}
use drogue_device.Driver.Cell.{cell, borrow, borrow_mut}
use drogue_device.Driver.Timer.{DelayDeadline, Shared}
use drogue_device.Sync.Signal.{Poll}

pub record DelayFuture : Type 0 where
  pub index : ℕ
  pub expired : Bool

unfoldable pub new : ℕ → DelayFuture
new index = record { index = index; expired = false }

-- The deadline in a slot: an index out of range, or an empty slot, is a panic.
abbrev pub deadline_at : List (Option DelayDeadline) → ℕ → Outcome DelayDeadline
deadline_at slots index = do slot ← unwrap (get_elem? slots index); unwrap slot

module _ {E : Type 0} where
  abbrev pub replace_slots : List (Option DelayDeadline) → Shared E → Shared E
  replace_slots slots s = record s { delay_deadlines = cell slots }

  -- `Shared::has_expired`
  unfoldable pub has_expired : ℕ → Shared E → Outcome (Bool × Shared E)
  has_expired index s = do
    slots ← borrow s.delay_deadlines
    deadline ← deadline_at slots.value index
    if deadline.expiration == 0
        then (do
          taken ← borrow_mut s.delay_deadlines
          done (true, replace_slots (set taken.value index none) s))
        else done (false, s)

  -- `Shared::register_waker`
  unfoldable pub register_waker : (index waker : ℕ) → Shared E → Outcome (Shared E)
  register_waker index waker s = do
    slots ← borrow_mut s.delay_deadlines
    deadline ← deadline_at slots.value index
    done (replace_slots (set slots.value index (some (record deadline { waker = some waker }))) s)

  -- `DelayFuture::has_expired`
  unfoldable pub check_expired : DelayFuture → Shared E → Outcome (DelayFuture × Shared E)
  check_expired f s =
      if f.expired
      then done (f, s)
      else (do (expired, s') ← has_expired f.index s; done (record f { expired = expired }, s'))

  -- `DelayFuture::poll`
  unfoldable pub poll :
      (waker : ℕ) → DelayFuture → Shared E → Outcome (Poll (Unit {0}) × DelayFuture × Shared E)
  poll waker f s = do
    (f', s') ← check_expired f s
    if f'.expired
        then done (Poll.ready tt, f', s')
        else (do s'' ← register_waker f'.index waker s'; done (Poll.pending, f', s''))

  -- A future whose slot holds a deadline, in a timer that is not borrowed: it is pending and leaves its
  -- waker in the slot as long as the deadline has not come; when it has come, the future is ready and
  -- its slot is free, and from then on it is ready at every poll, and touches no slot.
  pub poll-poll :
      (waker later : ℕ) (f : DelayFuture) (s other : Shared E) (deadline : DelayDeadline)
      → f.expired ≡ false
      → s.delay_deadlines ≡ cell s.delay_deadlines.value
      → get_elem? s.delay_deadlines.value f.index ≡ some (some deadline)
      → ((¬ (deadline.expiration ≡ 0))
          × (poll waker f s
              ≡ done (
                Poll.pending,
                f,
                replace_slots
                    (set s.delay_deadlines.value f.index
                      (some (record deadline { waker = some waker })))
                    s,
              )))
        ⊎ ((deadline.expiration ≡ 0)
            × (poll waker f s
                ≡ done (
                  Poll.ready tt,
                  record f { expired = true },
                  replace_slots (set s.delay_deadlines.value f.index none) s,
                ))
            × (poll later (record f { expired = true }) other
                ≡ done (Poll.ready tt, record f { expired = true }, other)))
  unfolding poll check_expired has_expired register_waker borrow borrow_mut
  poll-poll waker later f s other deadline fresh idle held =
      elim (Bool-cases (deadline.expiration == 0)) [
        | inl due ↦ inr ((==_iff _ 0).0 due, rw (fresh, idle, held, due) refl, refl)
        | inr early ↦ inl ((λ e. ground (arith, e)), rw (fresh, idle, held, early) (rw held refl))
      ]
