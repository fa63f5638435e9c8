-- ===== src/Actor/Context/Notify.antt =====
-- src/actor.rs, ActorContext::notify, with an interrupt whose handler notifies the same actor. The
-- message is put into the mailbox in a critical section; the flag is stored after it, through a handle
-- that is read from a cell.

mod Tests
use drogue_device.Base.{
  ◌+◌, ◌≤◌, ◌<◌, ◌≡◌, refl, ap, ◌∙◌, inl, inr, Option, some, List, [], ◌∷◌, ◌++◌, length,
  length-append, Outcome, done, panic, ◌>>=◌, unwrap, arith,
}
use mathlib.Core.List.{append_assoc}
use drogue_device.Fifo.{Fifo}
use drogue_device.Actor.Code.{ActorCode}
use drogue_device.Actor.Item.{Item}
use drogue_device.Actor.Context.{ActorState, ready, Context}
use drogue_device.Driver.Cell.{Borrow, unused, RefCell, cell, borrow, borrow_mut}

-- The handle is the actor's own flag, in a cell that any sender borrows.
pub record Target (C : ActorCode) (Q : Fifo (Item C)) : Type 0 where
  pub context : Context C Q
  pub state_flag_handle : RefCell (Unit {0})

-- Where the interrupt comes: between the statements, or while the handle is read.
pub data Point : Type 0 where
  before enqueued borrowed released after : Point

module _ (C : ActorCode) (Q : Fifo (Item C)) where
  -- The critical section; a full mailbox is a panic, "too many messages".
  unfoldable pub enqueue : Item C → Target C Q → Outcome (Target C Q)
  enqueue item t = do
    items ← unwrap (Q.enqueue item t.context.items)
    done (record t { context = record t.context { items = items } })

  -- `self.state_flag_handle.borrow_mut()`, whose borrow ends with the statement.
  unfoldable pub borrow_handle : Target C Q → Outcome (Target C Q)
  borrow_handle t = do c ← borrow_mut t.state_flag_handle; done (record t { state_flag_handle = c })

  unfoldable pub release_handle : Target C Q → Target C Q
  release_handle t = record t { state_flag_handle = record t.state_flag_handle { state = unused } }

  unfoldable pub store_ready : Target C Q → Target C Q
  store_ready t = record t { context = record t.context { flag = ready } }

  unfoldable pub notify_item : Item C → Target C Q → Outcome (Target C Q)
  notify_item item t = do
    queued ← enqueue item t
    reading ← borrow_handle queued
    done (store_ready (release_handle reading))

  -- The interrupt's own call, if it comes here.
  abbrev pub meanwhile : Point → Point → Item C → Target C Q → Outcome (Target C Q)
  meanwhile before before other t = notify_item other t
  meanwhile enqueued enqueued other t = notify_item other t
  meanwhile borrowed borrowed other t = notify_item other t
  meanwhile released released other t = notify_item other t
  meanwhile after after other t = notify_item other t
  meanwhile _ _ other t = done t

  -- `notify`, interrupted at one point by a handler that notifies the same actor.
  unfoldable pub interrupted_notify :
      Point → (item other : Item C) → Target C Q → Outcome (Target C Q)
  interrupted_notify at item other t = do
    called ← meanwhile before at other t
    queued ← enqueue item called
    queued' ← meanwhile enqueued at other queued
    reading ← borrow_handle queued'
    reading' ← meanwhile borrowed at other reading
    read ← meanwhile released at other (release_handle reading')
    meanwhile after at other (store_ready read)

  -- The argument of `do_poll` in `lifecycle`: its borrow ends with the statement, after the poll.
  unfoldable pub poll_handle : Target C Q → Outcome (Target C Q)
  poll_handle t = do c ← borrow t.state_flag_handle; done (record t { state_flag_handle = c })

  -- No one borrows the handle.
  abbrev pub target : Context C Q → Target C Q
  target c = record { context = c; state_flag_handle = cell tt }

  -- `more` is added to the mailbox, and the actor is READY.
  abbrev pub Delivers : List (Item C) → Context C Q → Outcome (Target C Q) → Type 0
  Delivers more c r =
      (items : Q.Queue) × (r ≡ done (target (record c { items = items; flag = ready })))
      × (Q.contents items ≡ Q.contents c.items ++ more)

  abbrev pub PointCase : Point → (item other : Item C) → Context C Q → Outcome (Target C Q) → Type 0
  PointCase borrowed item other c r = r ≡ panic
  PointCase before item other c r = Delivers (other ∷ item ∷ []) c r
  PointCase _ item other c r = Delivers (item ∷ other ∷ []) c r

  room_lem :
      (item : Item C) (items : Q.Queue)
      → length (Q.contents items) < Q.capacity
      → (q : Q.Queue) × (Q.enqueue item items ≡ some q)
        × (Q.contents q ≡ Q.contents items ++ item ∷ [])
  room_lem item items l = elim (Q.enqueue_lem item items) [
    | inl (room, found) ↦ found
    | inr (full, no_room) ↦ absurd (omega arith)
  ]

  -- Both, one after the other.
  two_lem :
      (item other : Item C) (items : Q.Queue)
      → length (Q.contents items) + 2 ≤ Q.capacity
      → (q r : Q.Queue) × (Q.enqueue item items ≡ some q)
        × (Q.enqueue other q ≡ some r)
        × (Q.contents r ≡ Q.contents items ++ item ∷ other ∷ [])
  two_lem item other items l =
      let (q, e, back) = room_lem item items (omega arith) in
      let (r, e', back') =
        room_lem other q
          (omega (arith, ap length back, length-append (Q.contents items) (item ∷ []))) in
      (
        q,
        r,
        e,
        e',
        back'
            ∙ ap (λ l. l ++ other ∷ []) back
            ∙ append_assoc (Q.contents items) (item ∷ []) (other ∷ []),
      )

  at_point :
      (at : Point) (item other : Item C) (c : Context C Q)
      → length (Q.contents c.items) + 2 ≤ Q.capacity
      → PointCase at item other c (interrupted_notify at item other (target c))
  unfolding interrupted_notify notify_item enqueue borrow_handle release_handle store_ready
      borrow_mut
  at_point before item other c l =
      let (q, r, e, e', back) = two_lem other item c.items l in (r, rw (e, e') refl, back)
  at_point borrowed item other c l =
      let (q, r, e, e', back) = two_lem item other c.items l in rw (e, e') refl
  at_point enqueued item other c l =
      let (q, r, e, e', back) = two_lem item other c.items l in (r, rw (e, e') refl, back)
  at_point released item other c l =
      let (q, r, e, e', back) = two_lem item other c.items l in (r, rw (e, e') refl, back)
  at_point after item other c l =
      let (q, r, e, e', back) = two_lem item other c.items l in (r, rw (e, e') refl, back)

  at_poll :
      (other : Item C) (c : Context C Q)
      → length (Q.contents c.items) + 2 ≤ Q.capacity
      → (poll_handle (target c) >>= notify_item other) ≡ panic
  unfolding poll_handle notify_item enqueue borrow_handle borrow borrow_mut
  at_poll other c l = let (q, e, back) = room_lem other c.items (omega arith) in rw e refl

  -- A notify is interrupted at one point by a handler that notifies the same actor, and the
  -- mailbox has room for both messages. If the interrupt comes while the flag handle is read, it
  -- panics, since the cell of the handle is borrowed. If it comes at any other point (before,
  -- after the message is in the mailbox, after the handle is read, or at the end), both messages
  -- are in the mailbox, in the order in which they came, and the flag is READY. While the actor
  -- polls itself for a lifecycle event, a notify panics whenever it comes.
  pub interrupted_notify-PointCase :
      (at : Point) (item other : Item C) (c : Context C Q)
      → length (Q.contents c.items) + 2 ≤ Q.capacity
      → PointCase at item other c (interrupted_notify at item other (target c))
        × ((poll_handle (target c) >>= notify_item other) ≡ panic)
  interrupted_notify-PointCase at item other c l = (at_point at item other c l, at_poll other c l)
