-- ===== src/Driver/I2c/Replies.antt =====
-- A poll of the I2C actor against its requests, one after the other.
use drogue_device.Base.{
  ℕ, ◌<◌, ◌≡◌, refl, ◌∙◌, none, some, List, [], ◌∷◌, length, Outcome, done, Result, ok, err,
}
use drogue_device.Fifo.{Fifo}
use drogue_device.Actor.Item.{Item, on_request, Sent, value, poll}
use drogue_device.Actor.Context.{Context, do_poll}
use drogue_device.Actor.Context.Order.{agenda, view, serve, serve_one, serve_ready, do_poll-Serves}
use drogue_device.Driver.I2c.{I2cBus, Message, i2c_read, i2c_write, i2c_write_read, code}
use drogue_device.Driver.I2c

module _ (I : I2cBus) where
  -- Each with the handle that its sender waits on.
  abbrev pub requests : List (ℕ × Message) → List (Item (code I))
  requests [] = []
  requests ((sender, message) ∷ rs) = on_request (some message) sender none ∷ requests rs

  -- A write fills no buffer.
  abbrev written : Result (Unit {0}) I.Fault → Result (List ℕ) I.Fault
  written (ok unit) = ok []
  written (err e) = err e

  -- The answers that the senders are promised, and the bus after the calls for them.
  abbrev pub answered : List (ℕ × Message) → I.Bus → List (Sent (code I)) × I.Bus
  answered [] bus = ([], bus)
  answered ((sender, i2c_read address room) ∷ rs) bus =
      let (result, bus') = I.read address room bus in
      let (sent, bus'') = answered rs bus' in (value sender result ∷ sent, bus'')
  answered ((sender, i2c_write address bytes) ∷ rs) bus =
      let (result, bus') = I.write address bytes bus in
      let (sent, bus'') = answered rs bus' in (value sender (written result) ∷ sent, bus'')
  answered ((sender, i2c_write_read address bytes room) ∷ rs) bus =
      let (result, bus') = I.write_read address bytes room bus in
      let (sent, bus'') = answered rs bus' in (value sender result ∷ sent, bus'')

  abbrev Serves : List (ℕ × Message) → I.Bus → Type 0
  Serves rs bus =
      serve (code I) (requests rs) (some tt) bus
      ≡ done (record {
        actor = some tt;
        current = none;
        rest = [];
        world = (answered rs bus).1;
        sent = (answered rs bus).0;
      })

  serve-requests : (rs : List (ℕ × Message)) (bus : I.Bus) → Serves rs bus
  unfolding serve serve_one serve_ready poll I2c.on_request
  serve-requests [] bus = refl
  serve-requests ((sender, i2c_read address room) ∷ rs) bus =
      rw (serve-requests rs (I.read address room bus).1) refl
  serve-requests ((sender, i2c_write address bytes) ∷ rs) bus =
      done_write (λ bus'. serve-requests rs bus') (I.write address bytes bus) refl
    where
      done_write :
          ((bus' : I.Bus) → Serves rs bus')
          → (r : Result (Unit {0}) I.Fault × I.Bus) → I.write address bytes bus ≡ r
          → Serves ((sender, i2c_write address bytes) ∷ rs) bus
      done_write served (ok u, bus') e = rw (e, served bus') refl
      done_write served (err f, bus') e = rw (e, served bus') refl
  serve-requests ((sender, i2c_write_read address bytes room) ∷ rs) bus =
      rw (serve-requests rs (I.write_read address bytes room bus).1) refl

  -- One poll of an idle I2C actor whose mailbox holds any list of read, write and write-read
  -- requests, on more fuel than there are requests, ends: in the order of the mailbox, a read
  -- makes one call of Read::read, a write one of Write::write and a write-read one of
  -- WriteRead::write_read, with the address and the bytes of the message and the bus as the one
  -- before it left it, its sender gets the result of that call, error or not, with the buffer that
  -- was filled, and the actor is back and idle.
  pub do_poll-answered :
      (Q : Fifo (Item (code I))) (fuel : ℕ) (c : Context (code I) Q) (rs : List (ℕ × Message))
      (bus : I.Bus)
      → length (agenda (code I) Q c) < fuel
      → agenda (code I) Q c ≡ requests rs
      → c.actor ≡ some tt
      → (o : Outcome _) × (do_poll (code I) Q fuel c bus ≡ some o)
        × (view (code I) Q o
            ≡ done (record {
              actor = some tt;
              current = none;
              rest = [];
              world = (answered rs bus).1;
              sent = (answered rs bus).0;
            }))
  do_poll-answered Q fuel c rs bus room waiting idle =
      let (o, e, same) = do_poll-Serves (code I) Q fuel c bus room in
      (o, e, same ∙ rw (waiting, idle) (serve-requests rs bus))
