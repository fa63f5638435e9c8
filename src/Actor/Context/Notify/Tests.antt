-- ===== src/Actor/Context/Notify/Tests.antt =====
-- Two messages to one actor, the second from an interrupt.
use drogue_device.Base.{ℕ, ◌≡◌, none, some, false, [], ◌∷◌, panic, ◌>>=◌, arith}
use drogue_device.Fifo.{Fifo, list_fifo}
use drogue_device.Actor.Item.{Item, on_notify}
use drogue_device.Actor.Context.{Context, waiting}
use drogue_device.Actor.Context.Notify.{
  enqueued, borrowed, target, Delivers, notify_item, poll_handle, interrupted_notify,
  interrupted_notify-PointCase,
}
use drogue_device.Sync.Mutex.{unlock_message, code}
use drogue_device.Actor.Code.{ActorCode}

abbrev mutex : ActorCode
mutex = code ℕ (list_fifo 16)

abbrev mailbox : Fifo (Item mutex)
mailbox = list_fifo 16

abbrev at_rest : Context mutex mailbox
at_rest = record {
  actor = some (record { address = 7 });
  current = none;
  items = [];
  in_flight = false;
  flag = waiting;
}

abbrev unlocks : ℕ → Item mutex
unlocks n = on_notify (some (unlock_message n)) none

interrupted_notify-PointCase_example :
    (interrupted_notify mutex mailbox borrowed
        (unlocks 5)
        (unlocks 6)
        (target mutex mailbox at_rest)
      ≡ panic)
    × ((poll_handle mutex mailbox (target mutex mailbox at_rest)
          >>= notify_item mutex mailbox (unlocks 6))
        ≡ panic)
interrupted_notify-PointCase_example =
    interrupted_notify-PointCase mutex mailbox borrowed (unlocks 5) (unlocks 6) at_rest
      (omega arith)

both_arrive : Delivers mutex mailbox (unlocks 5 ∷ unlocks 6 ∷ []) at_rest (
    interrupted_notify mutex mailbox enqueued
      (unlocks 5)
      (unlocks 6)
      (target mutex mailbox at_rest))
both_arrive =
    (interrupted_notify-PointCase mutex mailbox enqueued (unlocks 5) (unlocks 6) at_rest
      (omega arith)).0
