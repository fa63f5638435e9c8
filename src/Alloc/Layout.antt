-- ===== src/Alloc/Layout.antt =====
-- src/alloc/cortex_m/alloc/layout.rs: the size and the alignment of a block.
use drogue_device.Base.{ℕ, ◌-◌, ◌^◌, not, ltb, if◌then◌else◌, Option, none, some}
use drogue_device.Alloc.Align.{is_power_of_two}

pub record Layout : Type 0 where
  pub size : ℕ
  pub align : ℕ

-- `Err(LayoutErr)` is `none`.
unfoldable pub from_size_align : ℕ → ℕ → Option Layout
from_size_align size align =
    if not (is_power_of_two align)
    then none
    else if ltb (2 ^ 32 - 1 - (align - 1)) size
    then none
    else some (record { size = size; align = align })
