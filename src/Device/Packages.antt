-- ===== src/Device/Packages.antt =====
-- The packages of the drivers: `Package::mount` of src/driver/timer/mod.rs, src/driver/uart/mod.rs,
-- src/driver/i2c/mod.rs, src/driver/sensor/hts221/package.rs, src/synchronization/mutex.rs and
-- src/synchronization/sempahore.rs. Their `configure` and `bind`, which store references, are left out.
use native.Mathlib.Nat.{add-zero}
use drogue_device.Base.{ℕ, suc, ◌+◌, ◌≡◌, refl, List, [], ◌∷◌, length, Outcome, done, ◌>>=◌, arith}
use drogue_device.Supervisor.Mount.{Supervisor, Child, actor_context, interrupt_context, mount}
use drogue_device.Device.Mounted.{
  mounted, mounted-cons, mount-mounted, one_more, Room, mounted-Room,
}

pub data Package : Type 0 where
  mutex semaphore i2c : Package
  timer uart hts221 : (irq : ℕ) → Package

-- The contexts of a package, in the order in which it mounts them.
abbrev pub contexts : Package → List Child
contexts (timer irq) = interrupt_context irq ∷ []
contexts (uart irq) = actor_context ∷ interrupt_context irq ∷ []
contexts (hts221 irq) = interrupt_context irq ∷ actor_context ∷ []
contexts _ = actor_context ∷ []

-- Which of them its address is for.
abbrev pub main_context : Package → ℕ
main_context (hts221 irq) = 1
main_context _ = 0

module _ {World : Type 0} (on_mount : ℕ → World → World) where
  abbrev mount_two : (first second : Child) → Supervisor World → Outcome (ℕ × ℕ × Supervisor World)
  mount_two first second s = do
    (i, s') ← mount on_mount first s
    (k, s'') ← mount on_mount second s'
    done (i, k, s'')

  -- The mutex of a UART is a package too; a HTS221 gives the address of its sensor.
  unfoldable pub mount_package : Package → Supervisor World → Outcome (ℕ × Supervisor World)
  mount_package mutex s = mount on_mount actor_context s
  mount_package semaphore s = mount on_mount actor_context s
  mount_package i2c s = mount on_mount actor_context s
  mount_package (timer irq) s = mount on_mount (interrupt_context irq) s
  mount_package (uart irq) s = do
    (peripheral, interrupt, s') ← mount_two actor_context (interrupt_context irq) s
    done (peripheral, s')
  mount_package (hts221 irq) s = do
    (ready, sensor, s') ← mount_two (interrupt_context irq) actor_context s
    done (sensor, s')

  two_lem :
      (first second : Child) (s : Supervisor World)
      → Room on_mount (first ∷ second ∷ []) s
      → mount_two first second s
        ≡ done (
          length s.executor.states,
          suc (length s.executor.states),
          mounted on_mount (first ∷ second ∷ []) s,
        )
  two_lem first second s r =
      let next = mounted-Room on_mount first (second ∷ []) s r in
      rw
        (
          mount-mounted on_mount first s (omega (arith, r.room)) r.fewer,
          mount-mounted on_mount second (mounted on_mount (first ∷ []) s) (omega (arith, next.room))
              next.fewer,
          mounted-cons on_mount first (second ∷ []) s,
          one_more on_mount s,
        )
        refl

  one_lem :
      (child : Child) (s : Supervisor World)
      → Room on_mount (child ∷ []) s
      → mount on_mount child s
        ≡ done (length s.executor.states + 0, mounted on_mount (child ∷ []) s)
  one_lem child s r =
      rw (add-zero (length s.executor.states))
        (mount-mounted on_mount child s (omega (arith, r.room)) r.fewer)

  -- A package for whose contexts there is room is mounted without a panic, and leaves the supervisor
  -- with its contexts mounted in order; its address is that of its main actor.
  pub mount_package-mounted :
      (p : Package) (s : Supervisor World)
      → Room on_mount (contexts p) s
      → mount_package p s
        ≡ done (length s.executor.states + main_context p, mounted on_mount (contexts p) s)
  unfolding mount_package
  mount_package-mounted mutex s r = one_lem actor_context s r
  mount_package-mounted semaphore s r = one_lem actor_context s r
  mount_package-mounted i2c s r = one_lem actor_context s r
  mount_package-mounted (timer irq) s r = one_lem (interrupt_context irq) s r
  mount_package-mounted (uart irq) s r =
      rw (two_lem actor_context (interrupt_context irq) s r, add-zero (length s.executor.states))
        refl
  mount_package-mounted (hts221 irq) s r =
      let next : length s.executor.states + 1 ≡ suc (length s.executor.states) = omega arith in
      rw (two_lem (interrupt_context irq) actor_context s r, next) refl
