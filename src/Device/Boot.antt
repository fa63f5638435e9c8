-- ===== src/Device/Boot.antt =====
-- The mounting of a device, and what an interrupt does meanwhile and after it.
use drogue_device.Base.{
  ℕ, zero, suc, ◌≤◌, ◌<◌, ◌≡◌, refl, ◌∙◌, Bool, some, List, [], ◌∷◌, length, Outcome, done, panic,
  ◌>>=◌, arith,
}
use mathlib.Core.List.{append-nil}
use drogue_device.Driver.Cell.{reading, writing, borrow, borrow_mut}
use drogue_device.Supervisor.Interrupts.{Interruptable, activate_interrupt}
use drogue_device.Supervisor.Interrupts
use drogue_device.Supervisor.Mount.{
  Supervisor, Child, actor_context, interrupt_context, mount, mount_actor, mount_interrupt,
  dispatch,
}
use drogue_device.Supervisor.Mount
use drogue_device.Device.{DeviceContext, mounting, running, new, advance, advances, on_interrupt}
use drogue_device.Device.Mounted.{
  registrations, irqs, all_ready, on_mounts, mounted, mount-mounted, mounted-cons, Room,
  mounted-Room,
}

module _ {World : Type 0} (on_mount : ℕ → World → World) where
  -- Inside `device.mount`.
  abbrev pub inside : List Child → List Child → Supervisor World → DeviceContext World
  inside device rest s = record {
    device = device;
    supervisor = record { value = s; state = writing };
    bus = some 0;
    stage = mounting rest;
  }

  -- In `run_forever`.
  abbrev at_end : List Child → Supervisor World → DeviceContext World
  at_end device s = record {
    device = device;
    supervisor = record { value = s; state = reading };
    bus = some 0;
    stage = running;
  }

  advance-inside :
      (device : List Child) (child : Child) (rest : List Child) (s : Supervisor World)
      → Room on_mount (child ∷ rest) s
      → advance on_mount (inside device (child ∷ rest) s)
        ≡ done (inside device rest (mounted on_mount (child ∷ []) s))
  unfolding advance
  advance-inside device child rest s r =
      rw (mount-mounted on_mount child s (omega (arith, r.room)) r.fewer) refl

  advances-some :
      (device : List Child) (k : ℕ) (rest : List Child) (s : Supervisor World)
      → Room on_mount rest s
      → k ≤ length rest
      → (left : List Child) × (t : Supervisor World) × (advances on_mount k (inside device rest s)
          ≡ done (inside device left t))
  unfolding advances
  advances-some device zero rest s r l = (rest, s, refl)
  advances-some device (suc k) [] s r l = absurd (omega arith)
  advances-some device (suc k) (child ∷ rest) s r l =
      let (left, t, e) =
        advances-some device k rest (mounted on_mount (child ∷ []) s)
          (mounted-Room on_mount child rest s r) (omega arith) in
      (left, t, rw (advance-inside device child rest s r) e)

  advances-all :
      (device : List Child) (rest : List Child) (s : Supervisor World)
      → Room on_mount rest s
      → advances on_mount (suc (length rest)) (inside device rest s)
        ≡ done (at_end device (mounted on_mount rest s))
  unfolding advances advance borrow
  advances-all device [] s r =
      rw (append-nil s.executor.states, append-nil s.dispatcher, append-nil s.unmasked) refl
  advances-all device (child ∷ rest) s r =
      rw (advance-inside device child rest s r, ← (mounted-cons on_mount child rest s))
        (advances-all device rest (mounted on_mount (child ∷ []) s)
          (mounted-Room on_mount child rest s r))

  -- The event bus, with index 0, is mounted on_mount first.
  abbrev pub booted : List Child → World → DeviceContext World
  booted device world = at_end device (record {
    executor = record {
      states = all_ready (suc (length device));
      world = on_mounts on_mount 0 (suc (length device)) world;
    };
    dispatcher = registrations 1 device;
    unmasked = irqs device;
  })

  advances-two :
      (device : List Child) (k : ℕ) (world : World)
      → advances on_mount (suc (suc k)) (new device world)
        ≡ advances on_mount k
            (inside device device (mounted on_mount (actor_context ∷ []) (Mount.new world)))
  unfolding advances advance new Mount.new borrow_mut
  advances-two device k world =
      rw
        (mount-mounted on_mount actor_context
          (record {
            executor = record { states = []; world = world };
            dispatcher = [];
            unmasked = [];
          })
          (omega arith) (omega arith))
        refl

  module _ (in_flight : ℕ → World → Bool) (interrupt : ℕ → World → Outcome World) where
    abbrev pub with_world : DeviceContext World → World → DeviceContext World
    with_world d world = record d {
      supervisor = record d.supervisor {
        value = record d.supervisor.value {
          executor = record d.supervisor.value.executor { world = world };
        };
      };
    }

    on_interrupt-booted :
        (device : List Child) (irqn : ℕ) (world : World)
        → on_interrupt in_flight interrupt irqn (booted device world) ≡ (
            Interrupts.on_interrupt in_flight interrupt irqn
              (registrations 1 device)
              (on_mounts on_mount 0 (suc (length device)) world)
            >>= λ w. done (with_world (booted device world) w))
    unfolding on_interrupt dispatch borrow
    on_interrupt-booted device irqn world = joined (
        Interrupts.on_interrupt in_flight interrupt irqn (registrations 1 device)
          (on_mounts on_mount 0 (suc (length device)) world))
      where
        joined :
            (o : Outcome World)
            → (o
                >>= (λ w. done (record (booted device world).supervisor.value {
                  executor = record (booted device world).supervisor.value.executor { world = w };
                }))
                >>= (λ s. done (record (booted device world) {
                  supervisor = record (booted device world).supervisor { value = s };
                })))
              ≡ (o >>= λ w. done (with_world (booted device world) w))
        joined panic = refl
        joined (done w) = refl

    on_interrupt-inside :
        (device rest : List Child) (irqn : ℕ) (s : Supervisor World)
        → on_interrupt in_flight interrupt irqn (inside device rest s) ≡ panic
    unfolding on_interrupt borrow
    on_interrupt-inside device rest irqn s = refl

    -- A device of fewer than 16 contexts is mounted without a panic: the event bus first, then the
    -- contexts in order, each with the next index. At the end every flag is READY, on_mount of
    -- every actor was called in that order, the dispatcher holds the registration of every
    -- interrupt context with its index, and an interrupt is dispatched to them. But after any
    -- number of contexts, as long as device.mount has not returned, an interrupt of any number
    -- panics.
    pub advances-on_interrupt :
        (device : List Child) (k irqn : ℕ) (world : World)
        → length device < 16
        → k ≤ length device
        → (d : DeviceContext World) × (advances on_mount (suc (suc k)) (new device world) ≡ done d)
          × (on_interrupt in_flight interrupt irqn d ≡ panic)
          × (advances on_mount (suc (suc (suc (length device)))) (new device world)
              ≡ done (booted device world))
          × (on_interrupt in_flight interrupt irqn (booted device world) ≡ (
              Interrupts.on_interrupt in_flight interrupt irqn
                (registrations 1 device)
                (on_mounts on_mount 0 (suc (length device)) world)
              >>= λ w. done (with_world (booted device world) w)))
    unfolding Mount.new
    advances-on_interrupt device k irqn world few l =
        let s = mounted on_mount (actor_context ∷ []) (Mount.new world) in
        let r : Room on_mount device s = record { room = omega arith; fewer = omega arith } in
        let (left, t, e) = advances-some device k device s r l in
        (
          inside device left t,
          advances-two device k world ∙ e,
          on_interrupt-inside device left irqn t,
          advances-two device (suc (length device)) world ∙ advances-all device device s r,
          on_interrupt-booted device irqn world,
        )
