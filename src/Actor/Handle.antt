-- ===== src/Actor/Handle.antt =====
-- src/actor.rs: `CompletionHandle`, which carries the answer to a request from the actor to the task
-- that waits for it. A future is a state with a poll function.
use drogue_device.Base.{ℕ, zero, suc, ◌≡◌, refl, Option, none, some, List, [], ◌∷◌}
use drogue_device.Actor.Code.{Polled}

pub data CompletionValue (T F : Type 0) : Type 0 where
  immediate : T → CompletionValue T F
  future : F → CompletionValue T F

pub record CompletionHandle (T F : Type 0) : Type 0 where
  pub value : Option (CompletionValue T F)
  pub waker : Option ℕ

-- The result of a poll of the handle.
pub data Poll (T : Type 0) : Type 0 where
  ready : T → Poll T
  pending : Poll T

module _ {T F : Type 0} where
  unfoldable pub new : CompletionHandle T F
  new = record { value = none; waker = none }

  -- The waker that is called is the second component.
  unfoldable pub send_value : T → CompletionHandle T F → CompletionHandle T F × Option ℕ
  send_value value h =
      (record { value = some (CompletionValue.immediate value); waker = none }, h.waker)

  unfoldable pub send_future : F → CompletionHandle T F → CompletionHandle T F × Option ℕ
  send_future f h = (record { value = some (CompletionValue.future f); waker = none }, h.waker)

module _ {T F : Type 0} (run : F → Polled T F) where
  abbrev pub after_run : Option ℕ → Polled T F → Poll T × CompletionHandle T F
  after_run waker (Polled.ready value) = (Poll.ready value, record { value = none; waker = waker })
  after_run waker (Polled.pending f) =
      (Poll.pending, record { value = some (CompletionValue.future f); waker = waker })

  abbrev pub poll_value :
      ℕ → Option ℕ → Option (CompletionValue T F) → Poll T × CompletionHandle T F
  poll_value new_waker waker none = (Poll.pending, record { value = none; waker = some new_waker })
  poll_value new_waker waker (some (CompletionValue.immediate value)) =
      (Poll.ready value, record { value = none; waker = waker })
  poll_value new_waker waker (some (CompletionValue.future f)) = after_run waker (run f)

  unfoldable pub poll : ℕ → CompletionHandle T F → Poll T × CompletionHandle T F
  poll waker h = poll_value waker h.waker h.value

  -- The results of polls one after the other, with the last state.
  abbrev pub polls : List ℕ → CompletionHandle T F → List (Poll T) × CompletionHandle T F
  polls [] h = ([], h)
  polls (waker ∷ wakers) h =
      let (p, h') = poll waker h in let (ps, h'') = polls wakers h' in (p ∷ ps, h'')

  -- The waker of the last poll.
  abbrev pub last : Option ℕ → List ℕ → Option ℕ
  last waker [] = waker
  last waker (w ∷ wakers) = last (some w) wakers

  abbrev pub all_pending : List ℕ → List (Poll T)
  all_pending [] = []
  all_pending (w ∷ wakers) = Poll.pending ∷ all_pending wakers

  polls-pending :
      (wakers : List ℕ) (waker : Option ℕ)
      → polls wakers (record { value = none; waker = waker })
        ≡ (all_pending wakers, record { value = none; waker = last waker wakers })
  unfolding poll
  polls-pending [] waker = refl
  polls-pending (w ∷ wakers) waker = rw (polls-pending wakers (some w)) refl

  -- However often the receiver of a new handle has polled, all its polls were pending; then
  -- send_value calls the waker of the last poll (none, if there was none), and the next poll is
  -- ready with the value and leaves a new handle.
  pub poll-send_value :
      (wakers : List ℕ) (waker : ℕ) (value : T)
      → ((polls wakers new).0 ≡ all_pending wakers)
        × ((send_value value (polls wakers new).1).1 ≡ last none wakers)
        × (poll waker (send_value value (polls wakers new).1).0 ≡ (Poll.ready value, new))
  unfolding poll send_value new
  poll-send_value wakers waker value =
      (rw (polls-pending wakers none) refl, rw (polls-pending wakers none) refl, refl)

  -- A future that is ready after so many pending polls.
  pub data Takes : ℕ → F → T → Type 0 where
    now : {f : F} {value : T} → run f ≡ Polled.ready value → Takes zero f value
    later :
        {n : ℕ} {f f' : F} {value : T}
        → run f ≡ Polled.pending f'
        → Takes n f' value
        → Takes (suc n) f value

  abbrev pub pendings : ℕ → T → List (Poll T)
  pendings zero value = Poll.ready value ∷ []
  pendings (suc n) value = Poll.pending ∷ pendings n value

  abbrev pub times : ℕ → ℕ → List ℕ
  times zero waker = waker ∷ []
  times (suc n) waker = waker ∷ times n waker

  -- After send_future with a future that is pending n times and then ready with a value, the first
  -- n polls of the handle are pending, the next one is ready with that value, and the handle is
  -- left as a new one.
  pub polls-send_future :
      (n waker : ℕ) (f : F) (value : T) (h : CompletionHandle T F)
      → Takes n f value
      → polls (times n waker) (send_future f h).0 ≡ (pendings n value, new)
  unfolding poll send_future new
  polls-send_future zero waker f value h (now e) = rw e refl
  polls-send_future (suc n) waker f value h (later {f' = g} e t) =
      rw (e, polls-send_future n waker g value h t) refl

  -- However often the receiver of a new handle has polled, all its polls were pending; then
  -- send_value calls the waker of the last poll (none, if there was none), and the next poll is
  -- ready with the value and leaves a new handle. After send_future on any handle with a future
  -- that is pending n times and then ready with that value, the first n polls of the handle are
  -- pending, the next one is ready with the value, and the handle is left as a new one.
  pub polls-send :
      (wakers : List ℕ) (n waker : ℕ) (f : F) (value : T) (h : CompletionHandle T F)
      → Takes n f value
      → ((polls wakers new).0 ≡ all_pending wakers)
        × ((send_value value (polls wakers new).1).1 ≡ last none wakers)
        × (poll waker (send_value value (polls wakers new).1).0 ≡ (Poll.ready value, new))
        × (polls (times n waker) (send_future f h).0 ≡ (pendings n value, new))
  polls-send wakers n waker f value h takes =
      let (waits, wakes, answer) = poll-send_value wakers waker value in
      (waits, wakes, answer, polls-send_future n waker f value h takes)
