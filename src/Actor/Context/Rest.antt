-- ===== src/Actor/Context/Rest.antt =====
-- Serving an agenda stops before its end only at an item that is pending, and what holds of the world
-- through every poll of an item holds at its end.
use drogue_device.Base.{
  ℕ, ◌≤◌, length, arith, ◌≡◌, refl, Bool, true, false, Option, none, some, List, [], ◌∷◌, Outcome,
  done, panic,
}
use drogue_device.Actor.Code.{ActorCode}
use drogue_device.Actor.Item.{Item, Sent, Step, poll}
use drogue_device.Actor.Context.Order.{Served, then_served, serve, serve_one, serve_ready}

module _ (C : ActorCode) where
  -- Nothing is left in the mailbox, or an item is in flight.
  abbrev pub RestsAt : Option (Item C) → List (Item C) → Type 0
  RestsAt none items = items ≡ []
  RestsAt (some item) items = Unit {0}

  abbrev pub RestServed : Outcome (Served C) → Type 0
  RestServed panic = Unit {0}
  RestServed (done s) = RestsAt s.current s.rest

  then_served-Rest :
      (sent : List (Sent C)) (o : Outcome (Served C))
      → RestServed o
      → RestServed (then_served C sent o)
  then_served-Rest sent panic h = h
  then_served-Rest sent (done s) h = h

  serve_ready-Rest :
      (go : Option C.Self → C.World → Outcome (Served C)) (items : List (Item C)) (s : Step C)
      (b : Bool)
      → ((actor : Option C.Self) (world : C.World) → RestServed (go actor world))
      → RestServed (serve_ready C go items s b)
  unfolding serve_ready
  serve_ready-Rest go items s true h =
      then_served-Rest s.sent (go s.actor s.world) (h s.actor s.world)
  serve_ready-Rest go items s false h = tt

  serve_one-Rest :
      (go : Option C.Self → C.World → Outcome (Served C)) (items : List (Item C))
      (o : Outcome (Step C))
      → ((actor : Option C.Self) (world : C.World) → RestServed (go actor world))
      → RestServed (serve_one C go items o)
  unfolding serve_one
  serve_one-Rest go items panic h = tt
  serve_one-Rest go items (done s) h = serve_ready-Rest go items s s.is_ready h

  pub serve-Rest :
      (items : List (Item C)) (actor : Option C.Self) (world : C.World)
      → RestServed (serve C items actor world)
  unfolding serve
  serve-Rest [] actor world = refl
  serve-Rest (item ∷ items) actor world =
      serve_one-Rest (serve C items) items (poll C actor item world) (λ a w. serve-Rest items a w)

  abbrev in_front : Option (Item C) → List (Item C) → List (Item C)
  in_front none items = items
  in_front (some item) items = item ∷ items

  -- No more than `n` items are left in the mailbox.
  abbrev pub ShortServed : ℕ → Outcome (Served C) → Type 0
  ShortServed n panic = Unit {0}
  ShortServed n (done s) = length s.rest ≤ n

  serve_one-Short :
      (go : Option C.Self → C.World → Outcome (Served C)) (items : List (Item C))
      (o : Outcome (Step C))
      → ((actor : Option C.Self) (world : C.World) → ShortServed (length items) (go actor world))
      → ShortServed (length items) (serve_one C go items o)
  unfolding serve_one serve_ready
  serve_one-Short go items panic h = tt
  serve_one-Short go items (done s) h =
      by_answer s.is_ready (go s.actor s.world) (h s.actor s.world)
    where
      by_answer :
          (b : Bool) (o : Outcome (Served C))
          → ShortServed (length items) o
          → ShortServed (length items) (serve_ready C (λ a w. o) items s b)
      by_answer true panic g = tt
      by_answer true (done r) g = g
      by_answer false o g = omega arith

  serve-Short :
      (items : List (Item C)) (actor : Option C.Self) (world : C.World)
      → ShortServed (length items) (serve C items actor world)
  unfolding serve
  serve-Short [] actor world = omega arith
  serve-Short (item ∷ items) actor world =
      longer (serve_one C (serve C items) items (poll C actor item world)) (
        serve_one-Short (serve C items) items (poll C actor item world)
          (λ a w. serve-Short items a w))
    where
      longer :
          (o : Outcome (Served C))
          → ShortServed (length items) o
          → ShortServed (length (item ∷ items)) o
      longer panic h = tt
      longer (done s) h = omega (arith, h)

  -- The item in flight does not count.
  pub serve_agenda-Short :
      (current : Option (Item C)) (items : List (Item C)) (actor : Option C.Self) (world : C.World)
      → ShortServed (length items) (serve C (in_front current items) actor world)
  unfolding serve
  serve_agenda-Short none items actor world = serve-Short items actor world
  serve_agenda-Short (some item) items actor world =
      serve_one-Short (serve C items) items (poll C actor item world) (λ a w. serve-Short items a w)

  module _ (P : C.World → Type 0)
      (keeps : (actor : Option C.Self) (item : Item C) (world : C.World) (s : Step C)
        → P world
        → poll C actor item world ≡ done s
        → P s.world) where
    abbrev pub WorldServed : Outcome (Served C) → Type 0
    WorldServed panic = Unit {0}
    WorldServed (done s) = P s.world

    serve_one-World :
        (go : Option C.Self → C.World → Outcome (Served C)) (items : List (Item C))
        (o : Outcome (Step C))
        → ((s : Step C) → o ≡ done s → P s.world)
        → ((actor : Option C.Self) (world : C.World) → P world → WorldServed (go actor world))
        → WorldServed (serve_one C go items o)
    unfolding serve_one serve_ready
    serve_one-World go items panic g h = tt
    serve_one-World go items (done s) g h =
        by_answer s.is_ready (go s.actor s.world) (h s.actor s.world (g s refl))
      where
        by_answer :
            (b : Bool) (o : Outcome (Served C))
            → WorldServed o
            → WorldServed (serve_ready C (λ a w. o) items s b)
        by_answer true panic k = tt
        by_answer true (done r) k = k
        by_answer false o k = g s refl

    pub serve-World :
        (items : List (Item C)) (actor : Option C.Self) (world : C.World)
        → P world
        → WorldServed (serve C items actor world)
    unfolding serve
    serve-World [] actor world p = p
    serve-World (item ∷ items) actor world p =
        serve_one-World (serve C items) items (poll C actor item world)
          (λ s e. keeps actor item world s p e) (λ a w q. serve-World items a w q)
