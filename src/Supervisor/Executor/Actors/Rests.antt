-- ===== src/Supervisor/Executor/Actors/Rests.antt =====
-- A run of the executor ends with every actor at rest, where the messages and wake-ups that the
-- handlers make are paid for.
use drogue_device.Base.{ℕ, ◌≡◌, List, [], ◌∷◌, length, ◌>>=◌}
use drogue_device.Fifo.{Fifo}
use drogue_device.Actor.Code.{ActorCode}
use drogue_device.Actor.Item.{Item}
use drogue_device.Actor.Context.{Context}
use drogue_device.Actor.Context.Safety.{IsSane}
use drogue_device.Actor.Context.Rest.{RestsAt}
use drogue_device.Supervisor.Executor.{System}
use drogue_device.Supervisor.Executor
use drogue_device.Supervisor.Executor.Actors.{Mail, Actors}
use drogue_device.Supervisor.Executor.Actors.Posts.{Fits, AllRoom}
use drogue_device.Supervisor.Executor.Actors.Polls.{Frugal}

module _ (C : ActorCode) (Q : Fifo (Item C)) where
  -- Each actor is in its cell or in the item in flight, and has nothing left to do but that item.
  abbrev pub AllRest : List (Context C Q) → Type 0
  AllRest [] = Unit {0}
  AllRest (c ∷ cs) = IsSane C Q c × RestsAt C c.current (Q.contents c.items) × AllRest cs

module _ (C : ActorCode) (Q : Fifo (Item C)) (M : Mail C) (count : ℕ) (rank : C.World → ℕ)
    (During : ℕ → C.World → Type 0) (frugal : Frugal C Q M count rank During) where
  abbrev ranked : Actors C Q → ℕ
  ranked a = rank a.world

  -- The actors fit their flags, and the mailboxes have room for all that can still be posted.
  abbrev pub FitsIn : System (Actors C Q) → Type 0
  FitsIn s =
      Fits C Q s.states s.world.contexts
      × AllRoom C Q (rank s.world.world) s.world.contexts
      × (length s.world.contexts ≡ count)
