-- ===== src/Actor/Request/Answer.antt =====
-- A request is answered, and the requester's polls of the handle see it.
use drogue_device.Base.{
  ℕ, suc, ◌<◌, ◌≡◌, refl, ap, inl, inr, none, some, List, [], ◌∷◌, length, done, arith,
}
use drogue_device.Fifo.{Fifo}
use drogue_device.Actor.Code.{ActorCode, Polled}
use drogue_device.Actor.Item.{Item, on_request, Sent, value}
use drogue_device.Actor.Handle.{
  new, send_value, send_future, polls, last, all_pending, pendings, times, poll-send_value,
  polls-send_future,
}
use drogue_device.Actor.Context.{ActorState, Context, request, send, happen_all}
use drogue_device.Actor.Context.Order.{agenda}
use drogue_device.Actor.Request.{
  Answering, at_once, deferred, in_future, deliver, sender_of, poll_times, EndsWith, sent_as,
  answered,
}

module _ (C : ActorCode) (run : C.AnswerTask → Polled C.Answer C.AnswerTask)
    (Q : Fifo (Item C)) where
  -- What the requester sees of the handle.
  abbrev pub HandleCase :
      (x : Sent C) (sender : ℕ) (a : C.Answer) (n : ℕ) (wakers : List ℕ) (waker : ℕ) → Type 0
  HandleCase x sender a n wakers waker =
      (sender_of C run x ≡ sender)
      × ((polls run wakers new).0 ≡ all_pending run wakers)
      × ((deliver C run x (polls run wakers new).1).1 ≡ last run none wakers)
      × (polls run (times run n waker) (deliver C run x (polls run wakers new).1).0
          ≡ (pendings run n a, new))

  value-HandleCase :
      (sender : ℕ) (a : C.Answer) (wakers : List ℕ) (waker : ℕ)
      → HandleCase (value sender a) sender a 0 wakers waker
  value-HandleCase sender a wakers waker =
      let (waits, wakes, answer) = poll-send_value run wakers waker a in
      (refl, waits, wakes, ap (λ r. (r.0 ∷ [], r.1)) answer)

  sent_as-HandleCase :
      (message : C.Ask) (sender : ℕ) (self self' : C.Self) (a : C.Answer) (world w : C.World)
      (m n : ℕ) (r : Answering C run message self world self' a w m n) (wakers : List ℕ) (waker : ℕ)
      → HandleCase (sent_as C run Q sender r) sender a n wakers waker
  unfolding send_value send_future
  sent_as-HandleCase message sender self self' a world w m n (at_once e) wakers waker =
      value-HandleCase sender a wakers waker
  sent_as-HandleCase message sender self self' a world w m n (deferred e t) wakers waker =
      value-HandleCase sender a wakers waker
  sent_as-HandleCase message sender self self' a world w m n (in_future {f = fut} e t) wakers
        waker =
      let (waits, wakes, answer) = poll-send_value run wakers waker a in
      (refl, waits, wakes, polls-send_future run n waker fut a (polls run wakers new).1 t)

  -- A request to an actor at rest with an empty mailbox that has room, whose handler answers at
  -- once, or defers to an async block that is pending m times, or returns a future that is pending
  -- n times: the request is put into the mailbox, and m + 1 polls of the actor (with fuel 2 each)
  -- leave it at rest with its new state, having sent one thing, to the sender of the request. All
  -- polls of the requester until then were pending, the waker of the last of them is called, and
  -- its next polls are pending n times and then ready with the answer.
  pub request-Answering :
      (message : C.Ask) (sender : ℕ) (self self' : C.Self) (a : C.Answer) (world w : C.World)
      (m n : ℕ) (c : Context C Q) (wakers : List ℕ) (waker : ℕ)
      → Answering C run message self world self' a w m n
      → 0 < Q.capacity
      → c.actor ≡ some self
      → c.current ≡ none
      → Q.contents c.items ≡ []
      → (d : Context C Q) × (x : Sent C) × (request C Q message sender c ≡ done d)
        × EndsWith C run Q self' w x (happen_all C Q 2 (poll_times C run Q (suc m)) d world)
        × HandleCase x sender a n wakers waker
  unfolding request send
  request-Answering message sender self self' a world w m n c wakers waker r room h i j =
      elim (Q.enqueue_lem (on_request (some message) sender none) c.items) [
        | inl (fits, (q, ok, back)) ↦
            let d : Context C Q = record c { items = q; flag = ActorState.ready } in
            let alone : agenda C Q d ≡ on_request (some message) sender none ∷ [] =
              rw (i, back, j) refl in
            (
              d,
              sent_as C run Q sender r,
              rw ok refl,
              answered C run Q message sender self self' a world w m n d r h alone,
              sent_as-HandleCase message sender self self' a world w m n r wakers waker,
            )
        | inr (full, no_room) ↦ absurd (omega (arith, ap length j))
      ]
