-- ===== src/Device/Mounted.antt =====
-- What the mounting of contexts leaves in the supervisor.
use drogue_device.Base.{
  ℕ, zero, suc, ◌+◌, ◌≤◌, ◌<◌, ◌≡◌, refl, List, [], ◌∷◌, ◌++◌, length, length-append, done, arith,
}
use mathlib.Core.List.{append_assoc, append-nil}
use drogue_device.Actor.Context.{ActorState, ready}
use drogue_device.Supervisor.Executor.{activate_actor}
use drogue_device.Supervisor.Interrupts.{Interruptable, activate_interrupt}
use drogue_device.Supervisor.Mount.{
  Supervisor, Child, actor_context, interrupt_context, mount, mount_actor, mount_interrupt,
}

-- The registrations of contexts that are mounted in order, the first of them with index `i`.
abbrev pub registrations : ℕ → List Child → List Interruptable
registrations i [] = []
registrations i (actor_context ∷ children) = registrations (suc i) children
registrations i (interrupt_context irq ∷ children) =
    record { irq = irq; interrupt = i } ∷ registrations (suc i) children

abbrev pub irqs : List Child → List ℕ
irqs [] = []
irqs (actor_context ∷ children) = irqs children
irqs (interrupt_context irq ∷ children) = irq ∷ irqs children

abbrev pub all_ready : ℕ → List ActorState
all_ready zero = []
all_ready (suc n) = ready ∷ all_ready n

module _ {World : Type 0} (on_mount : ℕ → World → World) where
  -- `on_mount` of `count` actors, from `i` on.
  abbrev pub on_mounts : (i count : ℕ) → World → World
  on_mounts i zero world = world
  on_mounts i (suc count) world = on_mounts (suc i) count (on_mount i world)

  -- The supervisor with `children` mounted.
  abbrev pub mounted : List Child → Supervisor World → Supervisor World
  mounted children s = record {
    executor = record {
      states = s.executor.states ++ all_ready (length children);
      world = on_mounts (length s.executor.states) (length children) s.executor.world;
    };
    dispatcher = s.dispatcher ++ registrations (length s.executor.states) children;
    unmasked = s.unmasked ++ irqs children;
  }

  pub mount-mounted :
      (child : Child) (s : Supervisor World)
      → length s.executor.states < 16
      → length s.dispatcher ≤ length s.executor.states
      → mount on_mount child s ≡ done (length s.executor.states, mounted (child ∷ []) s)
  unfolding mount mount_actor mount_interrupt activate_actor activate_interrupt
  mount-mounted actor_context s l m = ground (arith, append-nil s.dispatcher, append-nil s.unmasked)
  mount-mounted (interrupt_context irq) s l m = ground arith

  pub one_more :
      (s : Supervisor World)
      → length (s.executor.states ++ ready ∷ []) ≡ suc (length s.executor.states)
  one_more s = omega (arith, length-append s.executor.states (ready ∷ []))

  pub mounted-cons :
      (child : Child) (children : List Child) (s : Supervisor World)
      → mounted children (mounted (child ∷ []) s) ≡ mounted (child ∷ children) s
  mounted-cons child children s =
      rw (one_more s, append_assoc s.executor.states (ready ∷ []) (all_ready (length children)))
        (parts child)
    where
      parts :
          (child : Child)
          → record {
            executor = record {
              states = s.executor.states ++ all_ready (suc (length children));
              world =
                  on_mounts
                    (suc (length s.executor.states))
                    (length children)
                    (on_mount (length s.executor.states) s.executor.world);
            };
            dispatcher =
                (s.dispatcher ++ registrations (length s.executor.states) (child ∷ []))
                ++ registrations (suc (length s.executor.states)) children;
            unmasked = (s.unmasked ++ irqs (child ∷ [])) ++ irqs children;
          }
            ≡ mounted (child ∷ children) s
      parts actor_context = rw (append-nil s.dispatcher, append-nil s.unmasked) refl
      parts (interrupt_context irq) =
          rw
            (
              append_assoc s.dispatcher
                  (record { irq = irq; interrupt = length s.executor.states } ∷ [])
                  (registrations (suc (length s.executor.states)) children),
              append_assoc s.unmasked (irq ∷ []) (irqs children),
            )
            refl

  pub record Room (rest : List Child) (s : Supervisor World) : Type 0 where
    pub room : length s.executor.states + length rest ≤ 16
    pub fewer : length s.dispatcher ≤ length s.executor.states

  pub mounted-Room :
      (child : Child) (rest : List Child) (s : Supervisor World)
      → Room (child ∷ rest) s
      → Room rest (mounted (child ∷ []) s)
  mounted-Room child rest s r = record {
    room = omega (arith, r.room, one_more s);
    fewer = omega (
      arith,
      one_more s,
      r.fewer,
      length-append s.dispatcher (registrations (length s.executor.states) (child ∷ [])),
      one_entry child,
    );
  }
    where
      one_entry :
          (child : Child) → length (registrations (length s.executor.states) (child ∷ [])) ≤ 1
      one_entry actor_context = omega arith
      one_entry (interrupt_context irq) = omega arith
