-- ===== src/Alloc/Hole.antt =====
-- src/alloc/cortex_m/alloc/hole.rs: the list of free blocks, sorted by address.
--
-- Each hole owns the one behind it (`next: Option<&'static mut Hole>`), so the holes that can be
-- reached from one are a list, and a hole in memory is its address and its size. A function that
-- moves a `&mut Hole` along the list is a recursion on the list of the holes behind it, and returns
-- the hole and that list as the code leaves them.
pub mod Valid
pub mod Steps
pub mod Dealloc
pub mod Bytes
pub mod Split
pub mod Fit
pub mod Contract
pub mod Promises
use drogue_device.Base.{
  ℕ, ◌-◌, ◌*◌, not, ◌&&◌, ltb, leb, ◌==◌, if◌then◌else◌, Option, none, some, List, [], ◌∷◌, Outcome,
  done, panic, ◌>>=◌, ◌>>◌, assert, add_usize, sub_usize,
}
use drogue_device.Alloc.Align.{align_up}
use drogue_device.Alloc.Layout.{Layout}

pub record HoleInfo : Type 0 where
  pub addr : ℕ
  pub size : ℕ

-- `first` is the dummy at the head.
pub record HoleList : Type 0 where
  pub first : HoleInfo
  pub holes : List HoleInfo

pub record Allocation : Type 0 where
  pub info : HoleInfo
  pub front_padding : Option HoleInfo
  pub back_padding : Option HoleInfo

-- `size_of::<usize>() * 2`
abbrev pub min_size : ℕ
min_size = 4 * 2

-- `align_of::<Hole>()`
abbrev pub align_of_hole : ℕ
align_of_hole = 4

abbrev pub block : ℕ → ℕ → HoleInfo
block addr size = record { addr = addr; size = size }

unfoldable pub empty : HoleList
empty = record { first = block 0 0; holes = [] }

-- `saturating_sub` is the subtraction of ℕ.
unfoldable pub new : ℕ → ℕ → Outcome HoleList
new hole_addr hole_size = do
  aligned_hole_addr ← align_up hole_addr align_of_hole
  let hole = block aligned_hole_addr (hole_size - sub_usize aligned_hole_addr hole_addr)
  done (record { first = block 0 0; holes = hole ∷ [] })

-- The aligned address and the padding in front of it.
unfoldable pub front_of : HoleInfo → ℕ → Outcome (ℕ × Option HoleInfo)
front_of hole required_align = do
  here ← align_up hole.addr required_align
  if hole.addr == here then done (hole.addr, none) else do
    aligned_addr ← align_up (add_usize hole.addr min_size) required_align
    done (aligned_addr, some (block hole.addr (sub_usize aligned_addr hole.addr)))

-- The allocation at `aligned_addr` and the padding behind it, if the hole reaches far enough.
unfoldable pub split_at : HoleInfo → ℕ → ℕ × Option HoleInfo → Option Allocation
split_at hole required_size (aligned_addr, front) =
    let aligned_size = sub_usize hole.size (sub_usize aligned_addr hole.addr) in
    let rest = sub_usize aligned_size required_size in
    if ltb (add_usize hole.addr hole.size) (add_usize aligned_addr required_size)
    then none
    else if aligned_size == required_size
    then some (allocation none)
    else if ltb rest min_size
    then none
    else some (allocation (some (block (add_usize aligned_addr required_size) rest)))
  where
    allocation : Option HoleInfo → Allocation
    allocation back = record {
      info = block aligned_addr required_size;
      front_padding = front;
      back_padding = back;
    }

unfoldable pub split_hole : HoleInfo → Layout → Outcome (Option Allocation)
split_hole hole required_layout = do
  front ← front_of hole required_layout.align
  done (split_at hole required_layout.size front)

abbrev pub Found : Type 0
Found = Option (Allocation × List HoleInfo)

-- Back on the way to the head: a hole that was passed over stays in front.
abbrev pub behind : HoleInfo → Found → Found
behind hole none = none
behind hole (some (allocation, rest)) = some (allocation, hole ∷ rest)

-- `fn allocate_first_fit`, over the holes behind `previous`; `Err(())` is `none`.
unfoldable pub first_fit : List HoleInfo → Layout → Outcome Found
first_fit [] layout = done none
first_fit (current ∷ rest) layout = do
  split ← split_hole current layout
  elim split [
    | some allocation ↦ done (some (allocation, rest))
    | none ↦ do found ← first_fit rest layout; done (behind current found)
  ]

-- The dummy has size 0, and counts as being at address 0.
abbrev pub hole_addr : HoleInfo → ℕ
hole_addr hole = if hole.size == 0 then 0 else hole.addr

abbrev pub hole_end : HoleInfo → ℕ
hole_end hole = add_usize (hole_addr hole) hole.size

abbrev pub grow : HoleInfo → ℕ → HoleInfo
grow hole size = record hole { size = add_usize hole.size size }

-- `fn deallocate`, at `hole` with the holes behind it.
unfoldable pub free_block : HoleInfo → List HoleInfo → ℕ → ℕ → Outcome (HoleInfo × List HoleInfo)
free_block hole [] addr size = do
  assert (leb min_size size)
  assert (leb (hole_end hole) addr)
  if hole_end hole == addr then done (grow hole size, []) else done (hole, block addr size ∷ [])
free_block hole (next ∷ rest) addr size =
    let merged = free_block hole rest addr (add_usize size next.size) in
    let delegated = free_block next rest addr size in
    do
      assert (leb min_size size)
      assert (leb (hole_end hole) addr)
      if hole_end hole == addr && add_usize addr size == next.addr
          then done (grow hole (add_usize size next.size), rest)
          else if hole_end hole == addr
          then done (grow hole size, next ∷ rest)
          else if add_usize addr size == next.addr
          then merged
          else if leb next.addr addr
          then (do (next', rest') ← delegated; done (hole, next' ∷ rest'))
          else done (hole, block addr size ∷ next ∷ rest)

-- `HoleList::deallocate`
unfoldable pub deallocate : HoleList → ℕ → ℕ → Outcome HoleList
deallocate list addr size = do
  (first, holes) ← free_block list.first list.holes addr size
  done (record { first = first; holes = holes })

unfoldable pub deallocate_padding : HoleList → Option HoleInfo → Outcome HoleList
deallocate_padding list none = done list
deallocate_padding list (some padding) = deallocate list padding.addr padding.size

-- The address, or `none` for `Err(())`.
unfoldable pub finish_allocation : HoleList → Found → Outcome (Option ℕ × HoleList)
finish_allocation list none = done (none, list)
finish_allocation list (some (allocation, holes)) = do
  front ← deallocate_padding (record list { holes = holes }) allocation.front_padding
  back ← deallocate_padding front allocation.back_padding
  assert (not (allocation.info.addr == 0))
  done (some allocation.info.addr, back)

-- `HoleList::allocate_first_fit`
unfoldable pub allocate_first_fit : HoleList → Layout → Outcome (Option ℕ × HoleList)
allocate_first_fit list layout = do
  assert (leb min_size layout.size)
  found ← first_fit list.holes layout
  finish_allocation list found
