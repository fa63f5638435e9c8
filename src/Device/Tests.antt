-- ===== src/Device/Tests.antt =====
-- A device of three contexts, mounted and interrupted; and events on its bus.
use drogue_device.Base.{
  ℕ, ◌+◌, ◌≡◌, refl, false, Bool, List, [], ◌∷◌, ◌++◌, Outcome, done, panic, ◌>>=◌, arith,
}
use drogue_device.Fifo.{Fifo, list_fifo}
use drogue_device.Actor.Item.{Item}
use drogue_device.Actor.Context
use drogue_device.Actor.Context.{Context}
use drogue_device.Supervisor.Interrupts
use drogue_device.Supervisor.Mount.{Child, actor_context, interrupt_context}
use drogue_device.Device.{DeviceContext, new, advances, on_interrupt}
use drogue_device.Device.Mounted.{registrations}
use drogue_device.Device.Boot.{booted, with_world, advances-on_interrupt}
use drogue_device.Device.Bus.{event_bus, code, publish_all, Delivers, publish_all-Delivers}

-- A button on interrupt 6, an actor, and a port on interrupt 2.
abbrev device : List Child
device = interrupt_context 6 ∷ actor_context ∷ interrupt_context 2 ∷ []

-- The world lists what was called: 100 and the index for `on_mount`, the index for an interrupt.
abbrev on_mount : ℕ → List ℕ → List ℕ
on_mount i world = world ++ (100 + i) ∷ []

abbrev never : ℕ → List ℕ → Bool
never i world = false

abbrev interrupt : ℕ → List ℕ → Outcome (List ℕ)
interrupt i world = done (world ++ i ∷ [])

advances-on_interrupt_example :
    (d : DeviceContext (List ℕ)) × (advances on_mount 4 (new device []) ≡ done d)
    × (on_interrupt never interrupt 2 d ≡ panic)
    × (advances on_mount 6 (new device []) ≡ done (booted on_mount device []))
    × (on_interrupt never interrupt 2 (booted on_mount device []) ≡ (
        Interrupts.on_interrupt never interrupt 2
          (registrations 1 device)
          (100 ∷ 101 ∷ 102 ∷ 103 ∷ [])
        >>= λ w. done (with_world on_mount never interrupt (booted on_mount device []) w)))
advances-on_interrupt_example =
    advances-on_interrupt on_mount never interrupt device 2 2 [] (omega arith) (omega arith)

-- The port has index 3.
interrupt_reaches_port :
    Interrupts.on_interrupt never interrupt 2 (registrations 1 device) [] ≡ done (3 ∷ [])
unfolding Interrupts.on_interrupt
interrupt_reaches_port = refl

abbrev on_event : ℕ → List ℕ → List ℕ
on_event event seen = event ∷ seen

abbrev mailbox : Fifo (Item (code ℕ (List ℕ) on_event))
mailbox = list_fifo 16

publish_all-Delivers_example :
    (c : Context (code ℕ (List ℕ) on_event) mailbox) × (publish_all ℕ
        (List ℕ)
        on_event
        mailbox
        (7 ∷ 8 ∷ [])
        (Context.new (code ℕ (List ℕ) on_event) mailbox event_bus)
      ≡ done c)
    × Delivers ℕ (List ℕ) on_event mailbox (7 ∷ 8 ∷ []) [] c
publish_all-Delivers_example =
    publish_all-Delivers ℕ (List ℕ) on_event mailbox (7 ∷ 8 ∷ []) [] (omega arith)
