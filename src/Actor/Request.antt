-- ===== src/Actor/Request.antt =====
-- src/actor.rs, ActorContext::request, from the request to its answer: the item in the mailbox, the
-- polls of the actor, and the handle between the two, which CompletionSender, CompletionReceiver and
-- RequestResponseFuture pass their calls on to.
mod Answer
mod Tests
use drogue_device.Base.{
  ℕ, zero, suc, ◌<◌, ◌≡◌, refl, ap, ◌∙◌, inl, inr, Option, none, some, List, [], ◌∷◌, ◌++◌, length,
  Outcome, done, panic, arith,
}
use mathlib.Core.List.{append-nil}
use drogue_device.Fifo.{Fifo}
use drogue_device.Actor.Code.{ActorCode, Response, Polled}
use drogue_device.Actor.Item.{Item, on_request, Sent, value, future, Step, poll}
use drogue_device.Actor.Handle.{
  CompletionHandle, new, send_value, send_future, polls, last, all_pending, pendings, times, Takes,
  poll-send_value, polls-send_future,
}
use drogue_device.Actor.Context.{
  ActorState, Context, Polling, Event, do_poll, request, send, happen, happen_all,
}
use drogue_device.Actor.Context
use drogue_device.Actor.Context.Order.{
  Served, serve, serve_one, serve_ready, view, agenda, do_poll-Serves,
}

module _ (C : ActorCode) (run : C.AnswerTask → Polled C.Answer C.AnswerTask) where
  -- A deferred request that is pending `m` times, and then leaves the actor, an answer and a world.
  pub data TaskTakes (self : C.Self) (a : C.Answer) (w : C.World)
      : ℕ → C.AskTask → C.World → Type 0 where
    now :
        {t : C.AskTask} {world : C.World}
        → C.poll_ask t world ≡ (Polled.ready (self, a), w)
        → TaskTakes self a w zero t world
    later :
        {m : ℕ} {t t' : C.AskTask} {world world' : C.World}
        → C.poll_ask t world ≡ (Polled.pending t', world')
        → TaskTakes self a w m t' world'
        → TaskTakes self a w (suc m) t world

  -- How a handler answers: at once, by an async block, or by a future for the requester.
  pub data Answering (message : C.Ask) (self : C.Self) (world : C.World) (self' : C.Self)
      (a : C.Answer) (w : C.World) : (m n : ℕ) → Type 0 where
    at_once :
        C.on_request message self world ≡ (Response.immediate self' a, w)
        → Answering message self world self' a w zero zero
    deferred :
        {m : ℕ} {t : C.AskTask} {world' : C.World}
        → C.on_request message self world ≡ (Response.defer t, world')
        → TaskTakes self' a w m t world'
        → Answering message self world self' a w m zero
    in_future :
        {n : ℕ} {f : C.AnswerTask}
        → C.on_request message self world ≡ (Response.immediate_future self' f, w)
        → Takes run n f a
        → Answering message self world self' a w zero n

  -- `CompletionSender::send_value` or `send_future`
  abbrev pub deliver :
      Sent C
      → CompletionHandle C.Answer C.AnswerTask
      → CompletionHandle C.Answer C.AnswerTask × Option ℕ
  deliver (value sender a) h = send_value a h
  deliver (future sender f) h = send_future f h

  abbrev pub sender_of : Sent C → ℕ
  sender_of (value sender a) = sender
  sender_of (future sender f) = sender

  module _ (Q : Fifo (Item C)) where
    abbrev pub poll_times : ℕ → List (Event C)
    poll_times zero = []
    poll_times (suc n) = Event.polls ∷ poll_times n

    -- The actor is at rest, and one thing was sent.
    pub record Ended (self : C.Self) (w : C.World) (x : Sent C) (p : Polling C Q) : Type 0 where
      pub actor : p.context.actor ≡ some self
      pub current : p.context.current ≡ none
      contents : Q.contents p.context.items ≡ []
      pub world : p.world ≡ w
      pub sent : p.sent ≡ x ∷ []

    abbrev pub EndsWith : C.Self → C.World → Sent C → Option (Outcome (Polling C Q)) → Type 0
    EndsWith self w x r = (p : Polling C Q) × (r ≡ some (done p)) × Ended self w x p

    one-Serves :
        (c : Context C Q) (item : Item C) (actor : Option C.Self) (world : C.World)
        → agenda C Q c ≡ item ∷ []
        → c.actor ≡ actor
        → (o : Outcome (Polling C Q)) × (do_poll C Q 2 c world ≡ some o)
          × (view C Q o ≡ serve C (item ∷ []) actor world)
    one-Serves c item actor world e f =
        let (o, ran, same) = do_poll-Serves C Q 2 c world (rw e (omega arith)) in
        let served : serve C (agenda C Q c) c.actor world ≡ serve C (item ∷ []) actor world =
          rw (e, f) refl in
        (o, ran, same ∙ served)

    -- The last poll.
    last_poll :
        (c : Context C Q) (world : C.World) (o : Outcome (Polling C Q)) (self : C.Self)
        (w : C.World) (x : Sent C)
        → do_poll C Q 2 c world ≡ some o
        → view C Q o
          ≡ done (record { actor = some self; current = none; rest = []; world = w; sent = x ∷ [] })
        → EndsWith self w x (happen_all C Q 2 (Event.polls ∷ []) c world)
    unfolding happen_all happen
    last_poll c world panic self w x e v = cc
    last_poll c world (done p) self w x e v = (
      record p { sent = p.sent ++ [] },
      rw e refl,
      record {
        actor = ground (arith, v);
        current = ground (arith, v);
        contents = ground (arith, v);
        world = ground (arith, v);
        sent = append-nil p.sent ∙ ground (arith, v);
      },
    )

    -- The request is in flight, in its async block.
    record Waits (sender : ℕ) (t : C.AskTask) (c : Context C Q) : Type 0 where
      actor : c.actor ≡ none
      current : c.current ≡ some (on_request none sender (some t))
      contents : Q.contents c.items ≡ []

    -- A poll before the last.
    early_poll :
        (c : Context C Q) (world : C.World) (o : Outcome (Polling C Q)) (es : List (Event C))
        (sender : ℕ) (t : C.AskTask) (world' : C.World) (self : C.Self) (w : C.World) (x : Sent C)
        → do_poll C Q 2 c world ≡ some o
        → view C Q o
          ≡ done (record {
            actor = none;
            current = some (on_request none sender (some t));
            rest = [];
            world = world';
            sent = [];
          })
        → ((d : Context C Q) → Waits sender t d → EndsWith self w x (happen_all C Q 2 es d world'))
        → EndsWith self w x (happen_all C Q 2 (Event.polls ∷ es) c world)
    unfolding happen_all happen
    early_poll c world panic es sender t world' self w x e v k = cc
    early_poll c world (done p) es sender t world' self w x e v k =
        let same : p.world ≡ world' = ground (arith, v) in
        let none_sent : p.sent ≡ [] = ground (arith, v) in
        let (q, ran, end) = k p.context (record {
          actor = ground (arith, v);
          current = ground (arith, v);
          contents = ground (arith, v);
        }) in
        (q, rw (e, same, ran, none_sent) refl, end)

    resumed :
        (sender : ℕ) (self : C.Self) (a : C.Answer) (w : C.World) (m : ℕ) (t : C.AskTask)
        (world : C.World) (c : Context C Q)
        → TaskTakes self a w m t world
        → Waits sender t c
        → EndsWith self w (value sender a) (happen_all C Q 2 (poll_times (suc m)) c world)
    unfolding serve serve_one serve_ready poll
    resumed sender self a w zero t world c (now e) h =
        let (o, ran, same) =
          one-Serves c (on_request none sender (some t)) none world
            (rw (h.current, h.contents) refl) h.actor in
        last_poll c world o self w (value sender a) ran (same ∙ rw e refl)
    resumed sender self a w (suc m) t world c (later {t' = t'} {world' = world'} e rest) h =
        let (o, ran, same) =
          one-Serves c (on_request none sender (some t)) none world
            (rw (h.current, h.contents) refl) h.actor in
        early_poll c world o (poll_times (suc m)) sender t' world' self w (value sender a) ran
          (same ∙ rw e refl) (λ d g. resumed sender self a w m t' world' d rest g)

    abbrev pub sent_as :
        {message : C.Ask} {self : C.Self} {world : C.World} {self' : C.Self} {a : C.Answer}
        {w : C.World} {m n : ℕ}
        → ℕ
        → Answering message self world self' a w m n
        → Sent C
    sent_as {a = a} sender (at_once e) = value sender a
    sent_as {a = a} sender (deferred e t) = value sender a
    sent_as sender (in_future {f = f} e t) = future sender f

    -- The request is alone in the mailbox.
    pub answered :
        (message : C.Ask) (sender : ℕ) (self self' : C.Self) (a : C.Answer) (world w : C.World)
        (m n : ℕ) (c : Context C Q) (r : Answering message self world self' a w m n)
        → c.actor ≡ some self
        → agenda C Q c ≡ on_request (some message) sender none ∷ []
        → EndsWith self' w (sent_as sender r) (happen_all C Q 2 (poll_times (suc m)) c world)
    unfolding serve serve_one serve_ready poll
    answered message sender self self' a world w zero zero c (at_once e) f h =
        let (o, ran, same) =
          one-Serves c (on_request (some message) sender none) (some self) world h f in
        last_poll c world o self' w (value sender a) ran (same ∙ rw e refl)
    answered message sender self self' a world w zero n c (in_future {f = fut} e t) f h =
        let (o, ran, same) =
          one-Serves c (on_request (some message) sender none) (some self) world h f in
        last_poll c world o self' w (future sender fut) ran (same ∙ rw e refl)
    answered message sender self self' a world w zero zero c (deferred e (now e')) f h =
        let (o, ran, same) =
          one-Serves c (on_request (some message) sender none) (some self) world h f in
        last_poll c world o self' w (value sender a) ran (same ∙ rw (e, e') refl)
    answered message sender self self' a world w (suc m) zero c
          (deferred e (later {t' = t'} {world' = world'} e' rest)) f h =
        let (o, ran, same) =
          one-Serves c (on_request (some message) sender none) (some self) world h f in
        early_poll c world o (poll_times (suc m)) sender t' world' self' w (value sender a) ran
          (same ∙ rw (e, e') refl) (λ d g. resumed sender self' a w m t' world' d rest g)
    answered message sender self self' a world w (suc m) (suc n) c r f h = elim r [ ]
