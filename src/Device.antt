-- ===== src/Device.antt =====
-- src/device.rs: `DeviceContext`, from its mounting by main to the executor's loop. The device is the
-- program's own; what its `mount` does is given by the contexts that it mounts, in order. The stages are
-- the statements of `DeviceContext::mount`, between which, and between the contexts, an interrupt may
-- come.

mod Mounted
mod Boot
mod Bus
mod Packages
mod Tests
use drogue_device.Base.{
  ℕ, zero, suc, Bool, Option, none, some, List, [], ◌∷◌, Outcome, done, panic, ◌>>=◌,
}
use drogue_device.Driver.Cell.{RefCell, cell, unused, borrow, borrow_mut}
use drogue_device.Supervisor.Mount.{Supervisor, Child, actor_context, mount, dispatch}
use drogue_device.Supervisor.Mount

-- `mounting` is inside `device.mount`, with the contexts still to come.
pub data Stage : Type 0 where
  created with_bus running : Stage
  mounting : List Child → Stage

-- `bus` is the address of the event bus.
pub record DeviceContext (World : Type 0) : Type 0 where
  pub device : List Child
  pub supervisor : RefCell (Supervisor World)
  pub bus : Option ℕ
  pub stage : Stage

module _ {World : Type 0} where
  unfoldable pub new : List Child → World → DeviceContext World
  new device world = record {
    device = device;
    supervisor = cell (Mount.new world);
    bus = none;
    stage = created;
  }

  -- The end of a borrow.
  abbrev pub release : RefCell (Supervisor World) → RefCell (Supervisor World)
  release c = record c { state = unused }

  module _ (on_mount : ℕ → World → World) where
    abbrev pub advance_from : Stage → DeviceContext World → Outcome (DeviceContext World)
    advance_from created d = do
      c ← borrow_mut d.supervisor
      (address, s) ← mount on_mount actor_context c.value
      done (record d {
        supervisor = release (record c { value = s });
        bus = some address;
        stage = with_bus;
      })
    advance_from with_bus d = do
      c ← borrow_mut d.supervisor
      done (record d { supervisor = c; stage = mounting d.device })
    advance_from (mounting (child ∷ children)) d = do
      (address, s) ← mount on_mount child d.supervisor.value
      done (record d { supervisor = record d.supervisor { value = s }; stage = mounting children })
    advance_from (mounting []) d = do
      c ← borrow (release d.supervisor)
      done (record d { supervisor = c; stage = running })
    advance_from running d = done d

    -- The next part of `DeviceContext::mount`; `run_forever` does not return.
    unfoldable pub advance : DeviceContext World → Outcome (DeviceContext World)
    advance d = advance_from d.stage d

    unfoldable pub advances : ℕ → DeviceContext World → Outcome (DeviceContext World)
    advances zero d = done d
    advances (suc n) d = advance d >>= advances n

  module _ (in_flight : ℕ → World → Bool) (interrupt : ℕ → World → Outcome World) where
    -- `DeviceContext::on_interrupt`, which DefaultHandler calls. Its borrow ends with the statement.
    unfoldable pub on_interrupt : ℕ → DeviceContext World → Outcome (DeviceContext World)
    on_interrupt irqn d = do
      c ← borrow d.supervisor
      s ← dispatch in_flight interrupt irqn c.value
      done (record d { supervisor = record d.supervisor { value = s } })
