-- ===== src/Alloc/Tests.antt =====
-- Runs of the allocator, and its theorems at concrete inputs.
use drogue_device.Base.{ℕ, ◌≡◌, refl, true, List, [], ◌∷◌, Option, none, some, arith, done, panic}
use drogue_device.Alloc.Align.{align_up, align_down, IsAlign, RoundsUp, align_up-RoundsUp}
use drogue_device.Alloc.Layout.{Layout}
use drogue_device.Alloc.Hole.{
  HoleList, HoleInfo, Allocation, block, allocate_first_fit, deallocate, min_size, split_at,
}
use drogue_device.Alloc.Hole.Split.{Fits, split_at_wraps}
use drogue_device.Alloc.Hole.Contract.{Valid, AfterFree, deallocate-AfterFree}
use drogue_device.Alloc.Hole.Promises.{
  AllocCase, allocate_first_fit-AllocCase, deallocate-allocate_first_fit, deallocate-double,
}
use drogue_device.Alloc.Hole
use drogue_device.Alloc.Align
use drogue_device.Alloc.Heap.Clients.{Client, Op, take, give_back, Inv, run, run-Inv}
use drogue_device.Alloc.Objects.Clients.{
  Program, Represents, Follows, run_boxes, run_boxes-Represents,
}
use drogue_device.Alloc.Rc.{live, dangling, drops, after_clones, drops-clones_early}

abbrev eight : IsAlign 8
eight = record { shift = 3; small = omega arith; power = refl }

abbrev layout : Layout
layout = record { size = 16; align = 8 }

-- Two holes: 64 to 76 and 100 to 160.
abbrev list : HoleList
list = record { first = block 0 0; holes = block 64 12 ∷ block 100 60 ∷ [] }

list-Valid : Valid 160 list
list-Valid = record {
  small = omega arith;
  dummy_size = refl;
  dummy_addr = refl;
  chain = omega arith;
}

layout-Fits : Fits 160 layout
layout-Fits = record { align = eight; long = omega arith; room = omega arith }

-- The first hole is too small; the second is not aligned, and is split in three.
abbrev after_first : HoleList
after_first = record { first = block 0 0; holes = block 64 12 ∷ block 100 12 ∷ block 128 32 ∷ [] }

allocate_skips : allocate_first_fit list layout ≡ done (some 112, after_first)
unfolding allocate_first_fit Hole.first_fit Hole.split_hole Hole.front_of Hole.split_at align_up
    align_down Hole.finish_allocation Hole.deallocate_padding deallocate Hole.free_block
    Align.is_power_of_two
allocate_skips = refl

allocate_first_fit-AllocCase_example :
    (r : Option ℕ) × (list' : HoleList) × (allocate_first_fit list layout ≡ done (r, list'))
    × AllocCase 160 list layout r list'
allocate_first_fit-AllocCase_example =
    allocate_first_fit-AllocCase 160 list layout list-Valid layout-Fits

deallocate-allocate_first_fit_example : deallocate after_first 112 16 ≡ done list
deallocate-allocate_first_fit_example =
    deallocate-allocate_first_fit 160 list layout list-Valid layout-Fits 112 after_first
      allocate_skips

-- The block fills the gap between the two holes.
deallocate-AfterFree_example :
    (list' : HoleList) × (deallocate list 76 24 ≡ done list') × AfterFree 160 list 76 24 list'
deallocate-AfterFree_example =
    deallocate-AfterFree 160 list list-Valid 76 24 (omega arith) (omega arith) (omega arith)
      (λ x i. ground arith)

double_free_panics : deallocate list 104 16 ≡ panic
double_free_panics =
    deallocate-double 160 list 104 16 list-Valid (omega arith) (omega arith) (omega arith) refl

split_at_wraps_example :
    (a : Allocation) × (split_at (block 0x20000000 1024) 0xfffffff0 (0x20000000, none) ≡ some a)
    × (a.info.size ≡ 0xfffffff0)
split_at_wraps_example =
    split_at_wraps (block 0x20000000 1024) 0xfffffff0 (omega arith) (omega arith) (omega arith)
      (omega arith) (omega arith)

abbrev fresh : Client
fresh = record {
  heap = record {
    bottom = 64;
    size = 96;
    used = 0;
    holes = record { first = block 0 0; holes = block 64 96 ∷ [] };
  };
  live = [];
}

fresh-Inv : Inv 0 64 160 fresh
fresh-Inv = record {
  valid = record {
    valid = record {
      small = omega arith;
      dummy_size = refl;
      dummy_addr = refl;
      chain = omega arith;
    };
    balance = omega arith;
  };
  at_bottom = refl;
  bound = refl;
  above = λ x i. ground arith;
  used = refl;
  owns = tt;
}

abbrev calls : List Op
calls = take layout ∷ take (record { size = 5; align = 8 }) ∷ give_back 1 ∷ take layout ∷ []

run-Inv_example : (c : Client) × (run fresh calls ≡ done c) × Inv 0 64 160 c
run-Inv_example =
    run-Inv 0 64 160 fresh calls
      ((eight, omega arith), ((eight, omega arith), (tt, ((eight, omega arith), tt)))) fresh-Inv

drops-clones_early_example :
    (after_clones 1 (drops 1) ≡ live (record { count = 0; freed = true }))
    × (after_clones 1 (drops 2) ≡ dangling)
drops-clones_early_example = drops-clones_early 0 (omega arith)

-- The same client as a program of boxes.
abbrev fresh_boxes : Program
fresh_boxes = record { global = record { heap = fresh.heap; headers = λ ptr. none }; boxes = [] }

fresh-Represents : Represents fresh_boxes fresh
fresh-Represents = record { heap = refl; boxes = refl; headers = tt }

run_boxes-Represents_example : Follows 0 64 160 (run fresh calls) (run_boxes fresh_boxes calls)
run_boxes-Represents_example =
    run_boxes-Represents 0 64 160 fresh_boxes fresh calls
      ((eight, omega arith), ((eight, omega arith), (tt, ((eight, omega arith), tt)))) fresh-Inv
      fresh-Represents
