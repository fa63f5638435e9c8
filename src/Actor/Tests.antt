-- ===== src/Actor/Tests.antt =====
-- Runs of the handle between an actor and a requester, and its theorems at concrete inputs.
use drogue_device.Base.{ℕ, zero, suc, ◌≡◌, refl, none, some, [], ◌∷◌}
use drogue_device.Actor.Code.{Polled}
use drogue_device.Actor.Handle.{
  CompletionHandle, Poll, new, send_value, send_future, poll, polls, now, later, polls-send,
}

-- A future that counts down to the answer 6.
abbrev count_down : ℕ → Polled ℕ ℕ
count_down zero = Polled.ready 6
count_down (suc n) = Polled.pending n

abbrev fresh : CompletionHandle ℕ ℕ
fresh = record { value = none; waker = none }

handle_is_polled :
    ((polls count_down (1 ∷ 2 ∷ []) new).0 ≡ Poll.pending ∷ Poll.pending ∷ [])
    × ((send_value 6 (polls count_down (1 ∷ 2 ∷ []) new).1).1 ≡ some 2)
    × (poll count_down 3 (send_value 6 (polls count_down (1 ∷ 2 ∷ []) new).1).0
        ≡ (Poll.ready 6, new))
    × (polls count_down (3 ∷ 3 ∷ 3 ∷ []) (send_future 2 fresh).0
        ≡ (Poll.pending ∷ Poll.pending ∷ Poll.ready 6 ∷ [], new))
handle_is_polled =
    polls-send count_down (1 ∷ 2 ∷ []) 2 3 2 6 fresh (later refl (later refl (now refl)))
