-- ===== src/Driver/Matrix.antt =====
-- src/driver/led/matrix.rs: an LED matrix of up to 32 rows and columns, shown row by row. A level is
-- `true` for high; failures of the pins are ignored there (`.ok()`).
pub mod Bitmap
pub mod Font
pub mod Words
pub mod Pixels
pub mod Scan
mod Tests
use drogue_device.Base.{
  ℕ, zero, suc, ◌+◌, ◌%◌, Bool, true, false, not, if◌then◌else◌, Option, none, some, List, [], ◌∷◌,
  length, set, Outcome, done, panic, ◌>>=◌, unwrap,
}
use drogue_device.Driver.Matrix.Bitmap.{Frame, clear, is_set}
use drogue_device.Driver.Matrix.Bitmap
use drogue_device.Driver.Matrix.Font.{to_frame}

-- Whether the address is there (`mounted`), and whether the timer is (`timer`). `refresh` is the refresh rate as a duration, `none` where
-- the conversion fails.
pub record LedMatrix : Type 0 where
  pub mounted : Bool
  pub pin_rows : List Bool
  pub pin_cols : List Bool
  pub frame_buffer : Frame
  pub row_p : ℕ
  pub timer : Bool
  pub refresh : Option ℕ

pub data MatrixCommand : Type 0 where
  on off : (x y : ℕ) → MatrixCommand
  clears : MatrixCommand
  apply_ascii : ℕ → MatrixCommand
  renders : MatrixCommand

unfoldable pub new : (pin_rows pin_cols : List Bool) → Option ℕ → LedMatrix
new pin_rows pin_cols refresh = record {
  mounted = false;
  pin_rows = pin_rows;
  pin_cols = pin_cols;
  frame_buffer = Bitmap.blank;
  row_p = 0;
  timer = false;
  refresh = refresh;
}

abbrev pub all_low : List Bool → List Bool
all_low [] = []
all_low (row ∷ rows) = false ∷ all_low rows

-- The levels of the columns from column `cid` on, as row `row_p` of the frame has them.
unfoldable pub set_cols : Frame → (row_p cid : ℕ) → List Bool → Outcome (List Bool)
set_cols f row_p cid [] = done []
set_cols f row_p cid (col ∷ cols) = do
  lit ← is_set row_p cid f
  rest ← set_cols f row_p (suc cid) cols
  done (not lit ∷ rest)

abbrev pub set_high : ℕ → List Bool → Outcome (List Bool)
set_high i [] = panic
set_high zero (row ∷ rows) = done (true ∷ rows)
set_high (suc i) (row ∷ rows) = set_high i rows >>= λ rest. done (row ∷ rest)

-- `LEDMatrix::render`
unfoldable pub render : LedMatrix → Outcome LedMatrix
render m = do
  cols ← set_cols m.frame_buffer m.row_p 0 m.pin_cols
  rows ← set_high m.row_p (all_low m.pin_rows)
  done (record m { pin_rows = rows; pin_cols = cols; row_p = (m.row_p + 1) % length rows })

-- The delay after which the timer is asked to render.
abbrev pub schedule : LedMatrix → Outcome (List ℕ)
schedule m =
    if m.mounted
    then if m.timer then (do delay ← unwrap m.refresh; done (delay ∷ [])) else panic
    else done []

unfoldable pub on_start : LedMatrix → Outcome (List ℕ)
on_start m = schedule m

abbrev pub apply : LedMatrix → Frame → LedMatrix
apply m f = record m { frame_buffer = f }

abbrev pub buffered : LedMatrix → Outcome Frame → Outcome (LedMatrix × List ℕ)
buffered m f = f >>= λ g. done (apply m g, [])

-- `LEDMatrix::on_notify`, with what it schedules.
unfoldable pub on_notify : MatrixCommand → LedMatrix → Outcome (LedMatrix × List ℕ)
on_notify (on x y) m = buffered m (Bitmap.set x y m.frame_buffer)
on_notify (off x y) m = buffered m (Bitmap.unset x y m.frame_buffer)
on_notify (apply_ascii c) m = done (apply m (to_frame c), [])
on_notify clears m = done (apply m (clear m.frame_buffer), [])
on_notify renders m = do shown ← render m; delays ← schedule shown; done (shown, delays)
