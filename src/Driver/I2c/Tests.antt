-- ===== src/Driver/I2c/Tests.antt =====
-- The I2C actor on the bus of the simulated sensor.
use drogue_device.Base.{ℕ, ◌≡◌, refl, false, none, some, List, [], ◌∷◌, Outcome, done, ok, arith}
use drogue_device.Fifo.{Fifo, list_fifo}
use drogue_device.Actor.Item.{Item, value}
use drogue_device.Actor.Context.{Context, ActorState, do_poll}
use drogue_device.Actor.Context.Order.{view}
use drogue_device.Driver.I2c.{Message, i2c_write, i2c_write_read, code}
use drogue_device.Driver.I2c.Replies.{requests, answered, do_poll-answered}
use drogue_device.Driver.Hts221.Simulated.{simulated, powered_off}

-- Two tasks wait for a read of CTRL_REG1, the second after a write to it.
abbrev waiting : List (ℕ × Message)
waiting =
    (7, i2c_write_read 0x5F (0x20 ∷ []) 1)
    ∷ (8, i2c_write 0x5F (0x20 ∷ 0x85 ∷ []))
    ∷ (9, i2c_write_read 0x5F (0x20 ∷ []) 1)
    ∷ []

abbrev mailbox : Fifo (Item (code simulated))
mailbox = list_fifo 16

abbrev peripheral : Context (code simulated) mailbox
peripheral = record {
  actor = some tt;
  current = none;
  items = requests simulated waiting;
  in_flight = false;
  flag = ActorState.ready;
}

answers :
    (answered simulated waiting powered_off).0
    ≡ value 7 (ok (0 ∷ [])) ∷ value 8 (ok []) ∷ value 9 (ok (0x85 ∷ [])) ∷ []
answers = refl

do_poll-answered_example :
    (o : Outcome _) × (do_poll (code simulated) mailbox 4 peripheral powered_off ≡ some o)
    × (view (code simulated) mailbox o
        ≡ done (record {
          actor = some tt;
          current = none;
          rest = [];
          world = (answered simulated waiting powered_off).1;
          sent = (answered simulated waiting powered_off).0;
        }))
do_poll-answered_example =
    do_poll-answered simulated mailbox 4 peripheral waiting powered_off (omega arith) refl refl
