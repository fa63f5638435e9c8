-- ===== src/Driver/Memory/Follow.antt =====
-- What the memory actor tells, against the blocks that are held.
use drogue_device.Base.{
  ℕ, ◌+◌, ◌-◌, ◌^◌, ◌≤◌, ◌<◌, ◌≡◌, refl, none, some, List, [], ◌∷◌, ◌++◌, Outcome, done, arith,
  ◌>>=◌,
}
use Prim.Native.Nat.{◌%◌}
use mathlib.Core.List.{append_assoc, append-nil}
use drogue_device.Actor.Code.{initialize, start, stop, sleep, hibernate}
use drogue_device.Actor.Item.{Sent, value, poll}
use drogue_device.Alloc.Hole.{min_size}
use drogue_device.Alloc.Align.{round_up}
use drogue_device.Alloc.Heap
use drogue_device.Alloc.Heap.Balance.{new-HeapValid}
use drogue_device.Alloc.Heap.Held.{held_size}
use drogue_device.Alloc.Heap.Clients.{Client, Op, give_back, OpOk, step, Inv}
use drogue_device.Alloc.Objects.{CortexMHeap, new, used, free}
use drogue_device.Alloc.Objects.Clients.{Program, Represents, step_boxes, step_boxes-Follows}
use drogue_device.Driver.Memory.{
  Info, memory, info, code, Serving, serve_item, Turn, asked, notified, lifecycle, calls, turn,
  serve_all,
}

-- The blocks that are held make up what is used, and the rest of the heap is free.
abbrev pub told : (size : ℕ) → Client → Info
told size c = record { used = held_size c.live; free = size - held_size c.live }

-- What a turn does to the blocks that are held.
abbrev pub op_of : Turn → Op
op_of (asked sender place) = give_back place
op_of (notified place) = give_back place
op_of (lifecycle event place) = give_back place
op_of (calls op) = op

-- What is to be answered in a turn, and what is to be logged.
abbrev pub answer_of : Turn → Info → List (Sent code)
answer_of (asked sender place) i = value sender i ∷ []
answer_of (notified place) i = []
answer_of (lifecycle event place) i = []
answer_of (calls op) i = []

abbrev pub line_of : Turn → Info → List Info
line_of (asked sender place) i = []
line_of (notified place) i = i ∷ []
line_of (lifecycle event place) i = []
line_of (calls op) i = []

-- A client that makes the same calls, with what is to be told of the blocks it holds at each turn.
unfoldable pub follow :
    (size : ℕ) → List Turn → Client → Outcome (Client × List (Sent code) × List Info)
follow size [] c = done (c, [], [])
follow size (t ∷ ts) c = do
  c' ← step c (op_of t)
  (d, sent, logged) ← follow size ts c'
  done (d, answer_of t (told size c) ++ sent, line_of t (told size c) ++ logged)

abbrev pub TurnsOk : ℕ → List Turn → Type 0
TurnsOk top [] = Unit {0}
TurnsOk top (t ∷ ts) = OpOk top (op_of t) × TurnsOk top ts

abbrev pub serving : Program → List (Sent code) → List Info → Serving
serving o sent logged = record {
  actor = some memory;
  world = record { program = o; logged = logged };
  sent = sent;
}

-- One turn, for the same call of the program.
turn-step_boxes :
    (t : Turn) (o o' : Program) (sent : List (Sent code)) (logged : List Info) (i : Info)
    → step_boxes o (op_of t) ≡ done o'
    → info (record { program = o; logged = logged }) ≡ i
    → turn t (serving o sent logged)
      ≡ done (serving o' (sent ++ answer_of t i) (logged ++ line_of t i))
unfolding turn serve_item poll
turn-step_boxes (asked sender place) o o' sent logged i e f = rw (e, f, append-nil) refl
turn-step_boxes (notified place) o o' sent logged i e f = rw (e, f) refl
turn-step_boxes (lifecycle initialize place) o o' sent logged i e f = rw (e, append-nil logged) refl
turn-step_boxes (lifecycle start place) o o' sent logged i e f = rw (e, append-nil logged) refl
turn-step_boxes (lifecycle stop place) o o' sent logged i e f = rw (e, append-nil logged) refl
turn-step_boxes (lifecycle sleep place) o o' sent logged i e f = rw (e, append-nil logged) refl
turn-step_boxes (lifecycle hibernate place) o o' sent logged i e f = rw (e, append-nil logged) refl
turn-step_boxes (calls op) o o' sent logged i e f = rw (e, append-nil logged, append-nil sent) refl

module _ (lost bottom size : ℕ) where
  -- Both end well: the client is told what the actor has answered and logged after `sent` and
  -- `logged`, and the program has the boxes of the client.
  abbrev pub Told :
      Outcome (Client × List (Sent code) × List Info)
      → Outcome Serving
      → List (Sent code)
      → List Info
      → Type 0
  Told r r' sent logged =
      (d : Client) × (answers : List (Sent code)) × (lines : List Info) × (o : Program) × (r
        ≡ done (d, answers, lines))
      × (r' ≡ done (serving o (sent ++ answers) (logged ++ lines)))
      × (held_size d.live ≤ size)
      × Inv lost bottom (bottom + size) d
      × Represents o d

  info-told :
      (o : Program) (c : Client) (logged : List Info)
      → Inv lost bottom (bottom + size) c
      → Represents o c
      → (info (record { program = o; logged = logged }) ≡ told size c) × (held_size c.live ≤ size)
  unfolding used free Heap.free
  info-told o c logged v s =
      let sized : c.heap.size ≡ size = omega (arith, v.at_bottom, v.bound) in
      let small : held_size c.live ≤ size = omega (arith, v.used, v.valid.balance, sized) in
      let rest : (c.heap.size + 2 ^ 32 - c.heap.used) % 2 ^ 32 ≡ size - held_size c.live =
        omega (arith, v.used, sized, small, v.valid.valid.small, v.bound) in
      (rw (s.heap, rest, v.used) refl, small)

  serve_all-Told :
      (ts : List Turn) (o : Program) (c : Client) (sent : List (Sent code)) (logged : List Info)
      → TurnsOk (bottom + size) ts
      → Inv lost bottom (bottom + size) c
      → Represents o c
      → Told (follow size ts c) (serve_all ts (serving o sent logged)) sent logged
  unfolding follow serve_all
  serve_all-Told [] o c sent logged ok v s = (
    c,
    [],
    [],
    o,
    refl,
    rw (append-nil sent, append-nil logged) refl,
    (info-told o c logged v s).1,
    v,
    s,
  )
  serve_all-Told (t ∷ ts) o c sent logged ok v s =
      let (c', o', e, e', v', s') =
        step_boxes-Follows lost bottom (bottom + size) o c (op_of t) ok.0 v s in
      let i = told size c in
      let (d, answers, lines, p, f, f', small, w, r) =
        serve_all-Told ts o' c' (sent ++ answer_of t i) (logged ++ line_of t i) ok.1 v' s' in
      let turned = turn-step_boxes t o o' sent logged i e' (info-told o c logged v s).0 in
      (
        d,
        answer_of t i ++ answers,
        line_of t i ++ lines,
        p,
        rw (e, f) refl,
        rw turned (
            rw
              (
                ← append_assoc sent (answer_of t i) answers,
                ← append_assoc logged (line_of t i) lines,
              )
              f'),
        small,
        w,
        r,
      )

-- After CortexMHeap::new over an array (not at address 0, with at least min_size + 3 bytes, below
-- 2 ^ 31), let the memory actor be served any requests, notifications and lifecycle events, each
-- in an item whose box, at the place that the turn names, is dropped once it has been handled (at
-- no such place nothing is dropped), between any other calls that box a value (with a power-of-two
-- alignment and a size that can be addressed) or drop a box. Nothing panics. A client that passes
-- back the layouts of the blocks it holds makes the same calls without a panic, and each request
-- is answered, in order, and each notification logged, with the sizes of the blocks held at that
-- moment, the one of the item itself among them, as used and the rest of the array as free; the
-- boxes at the end are those of the client.
pub serve_all-follow :
    (bottom size : ℕ) (ts : List Turn) (logged : List Info)
    → 0 < bottom
    → bottom + size < 2 ^ 31
    → min_size + 3 ≤ size
    → TurnsOk (bottom + size) ts
    → (g : CortexMHeap) × (new bottom size ≡ done g)
      × Told
          (round_up bottom 4 - bottom)
          bottom
          size
          (follow size ts (record { heap = g.heap; live = [] }))
          (serve_all ts (serving (record { global = g; boxes = [] }) [] logged))
          []
          logged
unfolding new
serve_all-follow bottom size ts logged p t l ok =
    let (heap, made, valid, at_bottom, sized, unused, free_from, above) =
      new-HeapValid bottom size p t l in
    let g : CortexMHeap = record { heap = heap; headers = λ ptr. none } in
    (
      g,
      rw made refl,
      serve_all-Told (round_up bottom 4 - bottom) bottom size ts (record { global = g; boxes = [] })
          (record { heap = heap; live = [] }) [] logged ok
          (record {
            valid = valid;
            at_bottom = at_bottom;
            bound = omega (arith, at_bottom, sized);
            above = above;
            used = unused;
            owns = tt;
          })
          (record { heap = refl; boxes = refl; headers = tt }),
    )
