-- ===== src/Driver/Matrix/Bitmap.antt =====
-- `Frame` of src/driver/led/matrix.rs: 32 rows of 32 bits. An index out of range is a panic; a shift by
-- 32 or more wraps, as in a release build.
use drogue_device.Base.{
  ℕ, ◌-◌, ◌/◌, ◌%◌, ◌^◌, Bool, ◌==◌, bit_and, bit_or, Option, List, [], ◌∷◌, map, replicate,
  get_elem?, Outcome, done, ◌>>=◌, unwrap,
}
use drogue_device.Base

pub record Frame : Type 0 where
  pub bitmap : List ℕ

abbrev pub blank : Frame
blank = record { bitmap = replicate 32 0 }

-- `1 << y`
abbrev pub bit : ℕ → ℕ
bit y = 2 ^ (y % 32)

unfoldable pub clear : Frame → Frame
clear f = record { bitmap = map (λ m. 0) f.bitmap }

unfoldable pub set : (x y : ℕ) → Frame → Outcome Frame
set x y f = do
  m ← unwrap (get_elem? f.bitmap x)
  done (record { bitmap = Base.set f.bitmap x (bit_or m (bit y)) })

unfoldable pub unset : (x y : ℕ) → Frame → Outcome Frame
unset x y f = do
  m ← unwrap (get_elem? f.bitmap x)
  done (record { bitmap = Base.set f.bitmap x (bit_and m (2 ^ 32 - 1 - bit y)) })

unfoldable pub is_set : (x y : ℕ) → Frame → Outcome Bool
is_set x y f = do m ← unwrap (get_elem? f.bitmap x); done (bit_and m (bit y) / bit y == 1)
