-- ===== src/Supervisor/Interrupts.antt =====
-- src/supervisor/interrupt_dispatcher.rs: which actors an interrupt reaches. An actor is named by a
-- number; whether it is in flight, and its handler, are parameters.
use drogue_device.Base.{
  ℕ, ◌<◌, ◌≡◌, refl, Bool, ltb, ◌==◌, if◌then◌else◌, List, [], ◌∷◌, ◌++◌, length, Outcome, done,
  panic, ◌>>=◌, arith,
}
use Prim.Native.Nat.{◌%◌}

pub record Interruptable : Type 0 where
  pub irq : ℕ
  pub interrupt : ℕ

abbrev max_interrupts : ℕ
max_interrupts = 16

-- A full vector is a panic, "too many interrupts".
unfoldable pub activate_interrupt :
    (interrupt irq : ℕ) → List Interruptable → Outcome (List Interruptable)
activate_interrupt interrupt irq interrupts =
    if ltb (length interrupts) max_interrupts
    then done (interrupts ++ record { irq = irq; interrupt = interrupt } ∷ [])
    else panic

module _ {World : Type 0} (in_flight : ℕ → World → Bool)
    (interrupt : ℕ → World → Outcome World) where
  -- `InterruptContext::on_interrupt`: the interrupt of an actor in flight is dropped.
  abbrev pub interrupt_of : ℕ → World → Outcome World
  interrupt_of actor world = if in_flight actor world then done world else interrupt actor world

  -- The filter compares with `irqn as u8`; `irqn` is given by its two's complement.
  abbrev pub interrupt_if : (irqn : ℕ) → Interruptable → World → Outcome World
  interrupt_if irqn i world =
      if i.irq == irqn % 256 then interrupt_of i.interrupt world else done world

  -- `InterruptDispatcher::on_interrupt`
  unfoldable pub on_interrupt : (irqn : ℕ) → List Interruptable → World → Outcome World
  on_interrupt irqn [] world = done world
  on_interrupt irqn (i ∷ interrupts) world =
      interrupt_if irqn i world >>= on_interrupt irqn interrupts

  on_interrupt-append :
      (irqn : ℕ) (interrupts : List Interruptable) (i : Interruptable) (world : World)
      → on_interrupt irqn (interrupts ++ i ∷ []) world
        ≡ (on_interrupt irqn interrupts world >>= interrupt_if irqn i)
  unfolding on_interrupt
  on_interrupt-append irqn [] i world = returned (interrupt_if irqn i world)
    where
      returned : (o : Outcome World) → (o >>= on_interrupt irqn []) ≡ o
      returned panic = refl
      returned (done w) = refl
  on_interrupt-append irqn (j ∷ interrupts) i world =
      bound (interrupt_if irqn j world) (λ w. on_interrupt-append irqn interrupts i w)
    where
      bound :
          (o : Outcome World)
          → ((w : World)
              → on_interrupt irqn (interrupts ++ i ∷ []) w
                ≡ (on_interrupt irqn interrupts w >>= interrupt_if irqn i))
          → (o >>= on_interrupt irqn (interrupts ++ i ∷ []))
            ≡ ((o >>= on_interrupt irqn interrupts) >>= interrupt_if irqn i)
      bound panic h = refl
      bound (done w) h = h w

  -- While there are fewer than 16 registrations, activate_interrupt succeeds, and from then on an
  -- interrupt does all that it did before, and after that, if its number has the low byte of the
  -- new registration, calls the handler of that actor, unless the actor is in flight, in which
  -- case nothing is done and the interrupt is dropped.
  pub on_interrupt-activate_interrupt :
      (irqn irq actor : ℕ) (interrupts : List Interruptable) (world : World)
      → length interrupts < 16
      → (more : List Interruptable) × (activate_interrupt actor irq interrupts ≡ done more)
        × (on_interrupt irqn more world ≡ (
            on_interrupt irqn interrupts world >>= λ w.
            if irq == irqn % 256
            then (if in_flight actor w then done w else interrupt actor w)
            else done w))
  unfolding activate_interrupt
  on_interrupt-activate_interrupt irqn irq actor interrupts world room = (
    interrupts ++ record { irq = irq; interrupt = actor } ∷ [],
    ground arith,
    on_interrupt-append irqn interrupts (record { irq = irq; interrupt = actor }) world,
  )
