-- ===== src/Device/Bus.antt =====
-- src/bus.rs: the event bus, an actor that hands every event to `on_event` of the device; with
-- `DeviceContext::on_event` of src/device.rs and `Address::notify` of src/address.rs. What the device
-- does with an event is a parameter.
use drogue_device.Base.{
  suc, ◌+◌, ◌≤◌, ◌<◌, ◌≡◌, refl, sym, ap, ◌∙◌, inl, inr, none, some, List, [], ◌∷◌, ◌++◌, length,
  length-append, Outcome, done, panic, ◌>>=◌, arith,
}
use mathlib.Core.List.{append_assoc, append-nil}
use drogue_device.Fifo.{Fifo}
use drogue_device.Actor.Code.{ActorCode, Completion}
use drogue_device.Actor.Item.{Item, on_notify, poll}
use drogue_device.Actor.Context.{ready, Context, Polling, new, notify, send, do_poll}
use drogue_device.Actor.Context.Order.{
  Served, serve, serve_one, serve_ready, view, agenda, do_poll-Serves,
}

-- The bus holds a reference to the device, which is the world.
pub data EventBus : Type 0 where
  event_bus : EventBus

module _ (Event Device : Type 0) (on_event : Event → Device → Device) where
  abbrev pub on_bus_notify : Event → EventBus → Device → Completion EventBus ⊥ × Device
  on_bus_notify message self device = (Completion.immediate self, on_event message device)

  -- The default lifecycle handlers of the trait `Actor`.
  abbrev pub stays : EventBus → Device → Completion EventBus ⊥ × Device
  stays self device = (Completion.immediate self, device)

  abbrev pub code : ActorCode
  code = record {
    Self = EventBus;
    Message = Event;
    Ask = ⊥;
    Answer = ⊥;
    World = Device;
    Task = ⊥;
    AskTask = ⊥;
    AnswerTask = ⊥;
    on_initialize = stays;
    on_start = stays;
    on_sleep = stays;
    on_hibernate = stays;
    on_stop = stays;
    on_notify = on_bus_notify;
    on_request = λ message self device. absurd message;
    poll_task = λ task device. absurd task;
    poll_ask = λ task device. absurd task;
  }

  abbrev pub events_of : List Event → List (Item code)
  events_of [] = []
  events_of (event ∷ events) = on_notify (some event) none ∷ events_of events

  -- What the device has seen.
  abbrev pub seen : List Event → Device → Device
  seen [] device = device
  seen (event ∷ events) device = seen events (on_event event device)

  abbrev served_all : List Event → Device → Outcome (Served code)
  served_all events device = done (record {
    actor = some event_bus;
    current = none;
    rest = [];
    world = seen events device;
    sent = [];
  })

  serve-events :
      (events : List Event) (device : Device)
      → serve code (events_of events) (some event_bus) device ≡ served_all events device
  unfolding serve serve_one serve_ready poll
  serve-events [] device = refl
  serve-events (event ∷ events) device = rw (serve-events events (on_event event device)) refl

  module _ (Q : Fifo (Item code)) where
    -- `Address<EventBus<D>>::publish`
    unfoldable pub publish : Event → Context code Q → Outcome (Context code Q)
    publish event c = notify code Q event c

    unfoldable pub publish_all : List Event → Context code Q → Outcome (Context code Q)
    publish_all [] c = done c
    publish_all (event ∷ events) c = do c' ← publish event c; publish_all events c'

    -- The bus, with some events in its mailbox.
    record Holds (items : List (Item code)) (c : Context code Q) : Type 0 where
      actor : c.actor ≡ some event_bus
      current : c.current ≡ none
      contents : Q.contents c.items ≡ items

    publish-Holds :
        (event : Event) (items : List (Item code)) (c : Context code Q)
        → length items < Q.capacity
        → Holds items c
        → (c' : Context code Q) × (publish event c ≡ done c')
          × Holds (items ++ on_notify (some event) none ∷ []) c'
    unfolding publish notify send
    publish-Holds event items c l h = elim (Q.enqueue_lem (on_notify (some event) none) c.items) [
      | inl (room, (q, ok, back)) ↦ (
        record c { items = q; flag = ready },
        rw ok refl,
        record { actor = h.actor; current = h.current; contents = rw h.contents at back },
      )
      | inr (full, no_room) ↦ absurd (omega (arith, ap length h.contents))
    ]

    publish_all-Holds :
        (events : List Event) (items : List (Item code)) (c : Context code Q)
        → length items + length events ≤ Q.capacity
        → Holds items c
        → (c' : Context code Q) × (publish_all events c ≡ done c')
          × Holds (items ++ events_of events) c'
    unfolding publish_all
    publish_all-Holds [] items c l h = (
      c,
      refl,
      record {
        actor = h.actor;
        current = h.current;
        contents = h.contents ∙ sym (append-nil items);
      },
    )
    publish_all-Holds (event ∷ events) items c l h =
        let (c', e, h') = publish-Holds event items c (omega arith) h in
        let (c'', e', h'') =
          publish_all-Holds events (items ++ on_notify (some event) none ∷ []) c'
            (omega (arith, length-append items (on_notify (some event) none ∷ []))) h' in
        (
          c'',
          rw e e',
          record {
            actor = h''.actor;
            current = h''.current;
            contents =
                h''.contents
                ∙ append_assoc items (on_notify (some event) none ∷ []) (events_of events);
          },
        )

    length-events_of : (events : List Event) → length (events_of events) ≡ length events
    length-events_of [] = refl
    length-events_of (event ∷ events) = omega (arith, length-events_of events)

    -- What a poll of the bus leaves.
    abbrev pub Delivers : List Event → Device → Context code Q → Type 0
    Delivers events device c =
        (p : Polling code Q) × (do_poll code Q (suc (length events)) c device ≡ some (done p))
        × (p.world ≡ seen events device)
        × (p.context.actor ≡ some event_bus)
        × (p.context.current ≡ none)
        × (Q.contents p.context.items ≡ [])

    do_poll-Delivers :
        (events : List Event) (device : Device) (c : Context code Q)
        → Holds (events_of events) c
        → Delivers events device c
    do_poll-Delivers events device c h =
        let (o, e, same) =
          do_poll-Serves code Q (suc (length events)) c device
            (rw (h.current, h.contents) (omega (arith, length-events_of events))) in
        let served : serve code (agenda code Q c) c.actor device ≡ served_all events device =
          rw (h.actor, h.current, h.contents) (serve-events events device) in
        ended o e (same ∙ served)
      where
        ended :
            (o : Outcome (Polling code Q))
            → do_poll code Q (suc (length events)) c device ≡ some o
            → view code Q o ≡ served_all events device
            → Delivers events device c
        ended panic e v = cc
        ended (done p) e v =
            (p, e, ground (arith, v), ground (arith, v), ground (arith, v), ground (arith, v))

    new-Holds : Holds [] (new code Q event_bus)
    unfolding new
    new-Holds = record { actor = refl; current = refl; contents = Q.contents-empty }

    -- Any list of events that fits the mailbox can be published to a new event bus without a
    -- panic; one poll then ends, has handed each event to on_event of the device once, in the
    -- order of publication, and leaves the mailbox empty with the bus back in its cell.
    pub publish_all-Delivers :
        (events : List Event) (device : Device)
        → length events ≤ Q.capacity
        → (c : Context code Q) × (publish_all events (new code Q event_bus) ≡ done c)
          × Delivers events device c
    publish_all-Delivers events device l =
        let (c, e, h) =
          publish_all-Holds events [] (new code Q event_bus) (omega arith) new-Holds in
        (c, e, do_poll-Delivers events device c h)
