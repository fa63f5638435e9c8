-- ===== src/Alloc/Heap/Clients.antt =====
-- A client of `Heap` that frees only what it holds: any sequence of its calls.
use drogue_device.Base.{
  ℕ, ◌+◌, ◌^◌, ◌≤◌, ◌<◌, ◌≡◌, refl, true, List, [], ◌∷◌, Option, none, some, arith, Outcome, done,
  ◌>>=◌, get_elem?,
}
use drogue_device.Alloc.Align.{IsAlign}
use drogue_device.Alloc.Layout.{Layout}
use drogue_device.Alloc.Hole.Valid.{is_free}
use drogue_device.Alloc.Heap.{Heap, allocate_first_fit, deallocate}
use drogue_device.Alloc.Heap.Balance.{
  HeapValid, Requests, HeapCase, padded-RoundsUp, allocate_first_fit-HeapValid,
  deallocate-HeapValid,
}
use drogue_device.Alloc.Heap.Held.{
  Held, remove_at, held_size, OwnsAll, OwnsAll-take, free-DisjointAll, Owns-get, OwnsAll-remove_at,
}

pub record Client : Type 0 where
  pub heap : Heap
  pub live : List Held

-- `give_back i` frees the block at place `i`; at no such place the client does nothing.
pub data Op : Type 0 where
  take : Layout → Op
  give_back : ℕ → Op

abbrev pub keep : Client → Layout → Option ℕ × Heap → Client
keep c layout (none, heap) = record c { heap = heap }
keep c layout (some addr, heap) = record {
  heap = heap;
  live = record { addr = addr; layout = layout } ∷ c.live;
}

unfoldable pub give : Client → ℕ → Option Held → Outcome Client
give c i none = done c
give c i (some l) = do
  heap ← deallocate c.heap l.addr l.layout
  done (record { heap = heap; live = remove_at i c.live })

unfoldable pub step : Client → Op → Outcome Client
unfolding give
step c (take layout) = do r ← allocate_first_fit c.heap layout; done (keep c layout r)
step c (give_back i) = give c i (get_elem? c.live i)

unfoldable pub run : Client → List Op → Outcome Client
run c [] = done c
run c (op ∷ ops) = do c' ← step c op; run c' ops

pub record Inv (lost bottom top : ℕ) (c : Client) : Type 0 where
  pub valid : HeapValid lost c.heap
  pub at_bottom : c.heap.bottom ≡ bottom
  pub bound : c.heap.bottom + c.heap.size ≡ top
  pub above : (x : ℕ) → is_free x c.heap.holes.holes ≡ true → bottom ≤ x
  pub used : c.heap.used ≡ held_size c.live
  pub owns : OwnsAll bottom top c.heap.holes.holes c.live

-- What the client asks for can be addressed.
abbrev pub OpOk : ℕ → Op → Type 0
OpOk top (take layout) = IsAlign layout.align × (top + layout.align + layout.size + 32 < 2 ^ 32)
OpOk top (give_back i) = Unit {0}

abbrev pub OpsOk : ℕ → List Op → Type 0
OpsOk top [] = Unit {0}
OpsOk top (op ∷ ops) = OpOk top op × OpsOk top ops

module _ (lost bottom top : ℕ) where
  abbrev pub Steps : Outcome Client → Type 0
  Steps r = (c' : Client) × (r ≡ done c') × Inv lost bottom top c'

  take-Inv :
      (c : Client) (layout : Layout) (v : Inv lost bottom top c) (q : Requests c.heap layout)
      (r : Option ℕ) (heap' : Heap)
      → HeapValid lost heap'
      → HeapCase lost c.heap layout v.valid q r heap'
      → Inv lost bottom top (keep c layout (r, heap'))
  take-Inv c layout v q none heap' w same = record {
    valid = w;
    at_bottom = rw same v.at_bottom;
    bound = rw same v.bound;
    above = rw same v.above;
    used = rw same v.used;
    owns = rw same v.owns;
  }
  take-Inv c layout v q (some addr) heap' w (u, b, s, a) = record {
    valid = w;
    at_bottom = rw b v.at_bottom;
    bound = rw (b, s) v.bound;
    above = λ x i. v.above x (ground (arith, a.bytes x));
    used = omega (arith, u, v.used);
    owns = (
      record {
        positive = a.positive;
        above = v.above addr (a.was_free addr (ground (arith, padded-RoundsUp layout.size)));
        below = omega (arith, a.below, v.bound);
        align = q.align;
        room = omega (arith, q.room, v.bound);
        taken = λ x i. ground (arith, a.bytes x);
      },
      free-DisjointAll bottom top c.heap.holes.holes (record { addr = addr; layout = layout })
          a.was_free c.live v.owns,
      OwnsAll-take bottom top c.heap.holes.holes heap'.holes.holes
          (λ x n. ground (arith, a.bytes x)) c.live v.owns,
    );
  }

  give-Inv :
      (c : Client) (i : ℕ) (found : Option Held)
      → get_elem? c.live i ≡ found
      → Inv lost bottom top c
      → Steps (give c i found)
  unfolding give
  give-Inv c i none e v = (c, refl, v)
  give-Inv c i (some l) e v =
      let (own, share) = Owns-get bottom top c.heap.holes.holes l i c.live e v.owns in
      let (heap', e', w, u, b, s, f) =
        deallocate-HeapValid lost c.heap l.layout v.valid
          (record { align = own.align; room = omega (arith, own.room, v.bound) }) l.addr
          own.positive (omega (arith, own.below, v.bound)) (omega (arith, share, v.used))
          own.taken in
      (
        record { heap = heap'; live = remove_at i c.live },
        rw e',
        record {
          valid = w;
          at_bottom = rw b v.at_bottom;
          bound = rw (b, s) v.bound;
          above = λ x i. ground (arith, f.bytes x, v.above x, own.above);
          used = omega (arith, u, v.used, share);
          owns =
              OwnsAll-remove_at bottom top c.heap.holes.holes heap'.holes.holes l
                (λ x n m. ground (arith, f.bytes x)) i c.live e v.owns;
        },
      )

  pub step-Inv : (c : Client) (op : Op) → OpOk top op → Inv lost bottom top c → Steps (step c op)
  unfolding step
  step-Inv c (take layout) ok v =
      let q : Requests c.heap layout = record {
        align = ok.0;
        room = omega (arith, ok.1, v.bound);
      } in
      let (r, heap', e, w, h) = allocate_first_fit-HeapValid lost c.heap layout v.valid q in
      (keep c layout (r, heap'), rw e, take-Inv c layout v q r heap' w h)
  step-Inv c (give_back i) ok v = give-Inv c i (get_elem? c.live i) refl v

  -- From a well-formed heap, any sequence of allocations (with power-of-two alignments, and sizes
  -- that fit the address space) and of frees of blocks that the client holds runs without a panic,
  -- and keeps the invariant: the bottom and the top of the heap stay where they are, the hole list
  -- is sorted and unfragmented, every free byte and every held block lies between the bottom and
  -- the top, held blocks are pairwise disjoint and have no free byte, and the count of used bytes
  -- is the sum of the held blocks.
  pub run-Inv :
      (c : Client) (ops : List Op) → OpsOk top ops → Inv lost bottom top c → Steps (run c ops)
  unfolding run
  run-Inv c [] ok v = (c, refl, v)
  run-Inv c (op ∷ ops) ok v =
      let (c', e, w) = step-Inv c op ok.0 v in
      let (d, e', w') = run-Inv c' ops ok.1 w in (d, rw (e, e'), w')
