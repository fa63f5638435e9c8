-- ===== src/Driver/Memory/Tests.antt =====
-- Two requests and a notification, whose items leave the heap one after the other.
use drogue_device.Base.{ℕ, ◌≡◌, refl, List, [], ◌∷◌, Outcome, done, panic, arith, ◌-◌}
use drogue_device.Actor.Item.{Sent, value}
use drogue_device.Alloc.Align.{IsAlign, round_up}
use drogue_device.Alloc.Hole.{block}
use drogue_device.Alloc.Hole
use drogue_device.Alloc.Heap
use drogue_device.Alloc.Align
use drogue_device.Alloc.Layout.{from_size_align}
use drogue_device.Alloc.Heap.Clients.{Client, take, give, step}
use drogue_device.Alloc.Objects.{CortexMHeap, new}
use drogue_device.Driver.Memory.{Turn, asked, notified, calls, serve_all, Info, code}
use drogue_device.Driver.Memory.Follow.{serving, follow, Told, serve_all-follow}

abbrev four : IsAlign 4
four = record { shift = 2; small = omega arith; power = refl }

abbrev boxed : ℕ → Turn
boxed size = calls (take (record { size = size; align = 4 }))

-- The items are boxed, and one more value; each item is dropped when it is done with.
abbrev turns : List Turn
turns = boxed 24 ∷ boxed 40 ∷ boxed 12 ∷ boxed 100 ∷ asked 1 3 ∷ asked 2 2 ∷ notified 1 ∷ []

serve_all-follow_example :
    (g : CortexMHeap) × (new 0x20000001 400 ≡ done g)
    × Told
        (round_up 0x20000001 4 - 0x20000001)
        0x20000001
        400
        (follow 400 turns (record { heap = g.heap; live = [] }))
        (serve_all turns (serving (record { global = g; boxes = [] }) [] []))
        []
        []
serve_all-follow_example =
    serve_all-follow 0x20000001 400 turns [] (omega arith) (omega arith) (omega arith) (
      (four, omega arith),
      ((four, omega arith), ((four, omega arith), ((four, omega arith), (tt, (tt, (tt, tt)))))),
    )

-- What is told falls with each item that is dropped.
abbrev started : Client
started = record {
  heap = record {
    bottom = 64;
    size = 400;
    used = 0;
    holes = record { first = block 0 0; holes = block 64 400 ∷ [] };
  };
  live = [];
}

abbrev told_by : Outcome (Client × List (Sent code) × List Info) → List (Sent code) × List Info
told_by panic = ([], [])
told_by (done (c, answers, lines)) = (answers, lines)

falling : told_by (follow 400 turns started) ≡ (
  value 1 (record { used = 176; free = 224 }) ∷ value 2 (record { used = 152; free = 248 }) ∷ [],
  record { used = 112; free = 288 } ∷ [],
)
unfolding round_up follow step give Heap.allocate_first_fit Heap.align_layout Heap.deallocate
    Align.align_up Align.align_down Align.is_power_of_two from_size_align Hole.allocate_first_fit
    Hole.first_fit Hole.split_hole Hole.front_of Hole.split_at Hole.finish_allocation
    Hole.deallocate_padding Hole.deallocate Hole.free_block
falling = refl
