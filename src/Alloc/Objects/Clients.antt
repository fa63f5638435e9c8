-- ===== src/Alloc/Objects/Clients.antt =====
-- A program that boxes values and drops boxes, against a client that passes each layout back itself.
use mathlib.Core.Path.{subst}
use drogue_device.Base.{
  ℕ, ◌≡◌, refl, sym, ap, ◌∙◌, List, [], ◌∷◌, Option, none, some, arith, Outcome, done, panic, ◌>>=◌,
  get_elem?, add_usize, sub_usize,
}
use drogue_device.Alloc.Layout.{Layout, from_size_align}
use drogue_device.Alloc.Heap.{Heap, allocate_first_fit, deallocate}
use drogue_device.Alloc.Heap.Held.{Held, remove_at, Owns-get}
use drogue_device.Alloc.Heap.Clients.{
  Client, Op, take, give_back, keep, give, step, run, Inv, OpOk, OpsOk, step-Inv,
}
use drogue_device.Alloc.Objects.{
  CortexMHeap, alloc, dealloc, alloc_init, dealloc_object, drop, init,
}
use drogue_device.Alloc.Objects.Headers.{
  forget, pointers, HeadersOf, header_of, get-pointers, get-none, forget-pointers, get-HeadersOf,
  remove_at-HeadersOf, write_header-HeadersOf, from_size_align_lem,
}

-- The pointers of the boxes that are alive.
pub record Program : Type 0 where
  pub global : CortexMHeap
  pub boxes : List ℕ

abbrev pub boxed : Program → Option ℕ × CortexMHeap → Program
boxed o (none, g) = record o { global = g }
boxed o (some ptr, g) = record { global = g; boxes = ptr ∷ o.boxes }

unfoldable pub give_box : Program → ℕ → Option ℕ → Outcome Program
give_box o i none = done o
give_box o i (some ptr) = do
  g ← drop ptr o.global
  done (record { global = g; boxes = forget i o.boxes })

-- `take` boxes a value, `give_back i` drops the box at place `i`.
unfoldable pub step_boxes : Program → Op → Outcome Program
step_boxes o (take pair) = do res ← alloc_init pair o.global; done (boxed o res)
step_boxes o (give_back i) = give_box o i (get_elem? o.boxes i)

unfoldable pub run_boxes : Program → List Op → Outcome Program
run_boxes o [] = done o
run_boxes o (op ∷ ops) = do o' ← step_boxes o op; run_boxes o' ops

-- The same heap; each box points behind a header that has the layout of its block.
pub record Represents (o : Program) (c : Client) : Type 0 where
  pub heap : o.global.heap ≡ c.heap
  pub boxes : o.boxes ≡ pointers c.live
  pub headers : HeadersOf o.global.headers c.live

module _ (lost bottom top : ℕ) where
  abbrev pub Follows : Outcome Client → Outcome Program → Type 0
  Follows r r' =
      (c : Client) × (o : Program) × (r ≡ done c)
      × (r' ≡ done o)
      × Inv lost bottom top c
      × Represents o c

  settled :
      (r : Outcome Client) (d c : Client)
      → r ≡ done d
      → r ≡ done c
      → Inv lost bottom top c
      → Inv lost bottom top d
  settled r d c p q v = subst (Inv lost bottom top) (sym (done_inj d c (sym p ∙ q))) v
    where
      done_inj : (d c : Client) → done d ≡ done c → d ≡ c
      done_inj d c h = cc

  never : {A : Type 0} (r : Outcome Client) (c : Client) → r ≡ panic → r ≡ done c → A
  never r c p q = absurd (apart c (sym p ∙ q))
    where
      apart : (c : Client) → ¬ (◌≡◌ {A = Outcome Client} panic (done c))
      apart c h = cc

  take-Follows :
      (o : Program) (c : Client) (pair : Layout)
      → OpOk top (take pair)
      → Inv lost bottom top c
      → Represents o c
      → Follows (step c (take pair)) (step_boxes o (take pair))
  unfolding step step_boxes alloc_init alloc
  take-Follows o c pair ok v s =
      let (c', e, w) = step-Inv lost bottom top c (take pair) ok v in
      by_answer (allocate_first_fit c.heap pair) refl c' e w
    where
      named : from_size_align pair.size pair.align ≡ some pair
      named = from_size_align_lem pair ok.0 (omega (arith, ok.1))

      by_answer :
          (res : Outcome (Option ℕ × Heap))
          → allocate_first_fit c.heap pair ≡ res
          → (c' : Client) → step c (take pair) ≡ done c'
          → Inv lost bottom top c'
          → Follows (step c (take pair)) (step_boxes o (take pair))
      by_answer panic e c' e' w = never (step c (take pair)) c' (rw e refl) e'
      by_answer (done (none, heap)) e c' e' w = (
        record c { heap = heap },
        boxed o (none, record o.global { heap = heap }),
        rw e refl,
        rw (named, s.heap, e) refl,
        settled (step c (take pair)) _ c' (rw e refl) e' w,
        record { heap = refl; boxes = s.boxes; headers = s.headers },
      )
      by_answer (done (some addr, heap)) e c' e' w =
          let kept : step c (take pair) ≡ done (keep c pair (some addr, heap)) = rw e refl in
          let inv = settled (step c (take pair)) _ c' kept e' w in
          (
            keep c pair (some addr, heap),
            boxed o (init pair (some addr, record o.global { heap = heap })),
            kept,
            rw (named, s.heap, e) refl,
            inv,
            record {
              heap = refl;
              boxes = ap (λ ps. add_usize addr 8 ∷ ps) s.boxes;
              headers = (
                ground arith,
                write_header-HeadersOf o.global.headers (record { addr = addr; layout = pair }) pair
                    c.live inv.owns.1 s.headers,
              );
            },
          )

  give-Follows :
      (o : Program) (c : Client) (i : ℕ) (found : Option Held)
      → get_elem? c.live i ≡ found
      → Inv lost bottom top c
      → Represents o c
      → Follows (step c (give_back i)) (step_boxes o (give_back i))
  unfolding step step_boxes give give_box drop dealloc_object dealloc
  give-Follows o c i none e v s = (c, o, rw e refl, rw (s.boxes, get-none i c.live e) refl, v, s)
  give-Follows o c i (some l) e v s =
      let (c', e', w) = step-Inv lost bottom top c (give_back i) tt v in
      by_answer (deallocate c.heap l.addr l.layout) refl c' e' w
    where
      head : sub_usize (add_usize l.addr 8) 8 ≡ l.addr
      head =
          let (own, share) = Owns-get bottom top c.heap.holes.holes l i c.live e v.owns in
          header_of l.addr (omega (arith, own.below, own.room))

      header : o.global.headers l.addr ≡ some l.layout
      header = get-HeadersOf o.global.headers i c.live l e s.headers

      by_answer :
          (res : Outcome Heap)
          → deallocate c.heap l.addr l.layout ≡ res
          → (c' : Client) → step c (give_back i) ≡ done c'
          → Inv lost bottom top c'
          → Follows (step c (give_back i)) (step_boxes o (give_back i))
      by_answer panic d c' e' w = never (step c (give_back i)) c' (rw (e, d) refl) e'
      by_answer (done heap) d c' e' w = (
        record { heap = heap; live = remove_at i c.live },
        record { global = record o.global { heap = heap }; boxes = forget i o.boxes },
        rw (e, d) refl,
        rw (s.boxes, get-pointers i c.live l e, head, header, s.heap, d) refl,
        settled (step c (give_back i)) _ c' (rw (e, d) refl) e' w,
        record {
          heap = refl;
          boxes = rw s.boxes (forget-pointers i c.live);
          headers = remove_at-HeadersOf o.global.headers i c.live s.headers;
        },
      )

  -- One call of the program against the same call of the client.
  pub step_boxes-Follows :
      (o : Program) (c : Client) (op : Op)
      → OpOk top op
      → Inv lost bottom top c
      → Represents o c
      → Follows (step c op) (step_boxes o op)
  step_boxes-Follows o c (take pair) ok v s = take-Follows o c pair ok v s
  step_boxes-Follows o c (give_back i) ok v s = give-Follows o c i (get_elem? c.live i) refl v s

  -- From a well-formed heap with some boxes, whose headers have the layouts of their blocks, any
  -- sequence of calls that box a value (whose block has a power-of-two alignment and a size that
  -- fits the address space) or drop a box runs without a panic as the same sequence of a client
  -- that keeps the layout of each block itself and passes it back: the heaps are equal after it
  -- and keep the invariant, each box points 8 bytes behind the start of its block, and its header
  -- still has the layout of the block.
  pub run_boxes-Represents :
      (o : Program) (c : Client) (ops : List Op)
      → OpsOk top ops
      → Inv lost bottom top c
      → Represents o c
      → Follows (run c ops) (run_boxes o ops)
  unfolding run run_boxes
  run_boxes-Represents o c [] ok v s = (c, o, refl, refl, v, s)
  run_boxes-Represents o c (op ∷ ops) ok v s =
      let (c', o', e, e', v', s') = step_boxes-Follows o c op ok.0 v s in
      let (d, p, f, f', w, t) = run_boxes-Represents o' c' ops ok.1 v' s' in
      (d, p, rw e f, rw e' f', w, t)
