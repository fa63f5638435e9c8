-- ===== src/Supervisor/Mount.antt =====
-- src/supervisor/mod.rs, with ActorContext::mount of src/actor.rs and InterruptContext::mount of
-- src/interrupt.rs: how contexts come to the executor and to the dispatcher. An actor is named by its
-- index among the actors, which is what its address and its flag handle are here; `on_mount` of the
-- actors is a parameter.
use drogue_device.Base.{ℕ, Bool, List, [], ◌∷◌, ◌++◌, Outcome, done, ◌>>=◌}
use drogue_device.Supervisor.Executor.{System, activate_actor}
use drogue_device.Supervisor.Interrupts.{Interruptable, activate_interrupt, on_interrupt}

-- The executor and the dispatcher. Both are in cells of their own, each borrowed for one call.
-- `unmasked` is what the interrupt controller lets through.
pub record Supervisor (World : Type 0) : Type 0 where
  pub executor : System World
  pub dispatcher : List Interruptable
  pub unmasked : List ℕ

-- A context that a device mounts.
pub data Child : Type 0 where
  actor_context : Child
  interrupt_context : (irq : ℕ) → Child

module _ {World : Type 0} where
  unfoldable pub new : World → Supervisor World
  new world = record {
    executor = record { states = []; world = world };
    dispatcher = [];
    unmasked = [];
  }

  module _ (on_mount : ℕ → World → World) where
    -- `ActorContext::mount`: the address, with `on_mount` called on the actor.
    unfoldable pub mount_actor : Supervisor World → Outcome (ℕ × Supervisor World)
    mount_actor s = do
      (i, executor) ← activate_actor s.executor
      done (i, record s { executor = record executor { world = on_mount i executor.world } })

    -- `InterruptContext::mount`, whose last act is `NVIC::unmask`.
    unfoldable pub mount_interrupt : ℕ → Supervisor World → Outcome (ℕ × Supervisor World)
    mount_interrupt irq s = do
      (i, s') ← mount_actor s
      interrupts ← activate_interrupt i irq s'.dispatcher
      done (i, record s' { dispatcher = interrupts; unmasked = s'.unmasked ++ irq ∷ [] })

    unfoldable pub mount : Child → Supervisor World → Outcome (ℕ × Supervisor World)
    mount actor_context s = mount_actor s
    mount (interrupt_context irq) s = mount_interrupt irq s

  -- `Supervisor::on_interrupt`
  module _ (in_flight : ℕ → World → Bool) (interrupt : ℕ → World → Outcome World) where
    unfoldable pub dispatch : ℕ → Supervisor World → Outcome (Supervisor World)
    dispatch irqn s = do
      world ← on_interrupt in_flight interrupt irqn s.dispatcher s.executor.world
      done (record s { executor = record s.executor { world = world } })
