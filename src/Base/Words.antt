-- ===== src/Base/Words.antt =====
-- `usize` is 32 bits wide on the supported processors; its arithmetic wraps.
use Prim.Native.Nat.{ℕ, ◌+◌, ◌-◌, ◌%◌, ◌^◌}

abbrev pub add_usize : ℕ → ℕ → ℕ
add_usize a b = (a + b) % 2 ^ 32

abbrev pub sub_usize : ℕ → ℕ → ℕ
sub_usize a b = (a + 2 ^ 32 - b) % 2 ^ 32

-- `!a`
abbrev pub not_usize : ℕ → ℕ
not_usize a = 2 ^ 32 - 1 - a
