-- ===== src/Driver/Matrix/Tests.antt =====
-- The LED matrix at concrete inputs.
use drogue_device.Base.{
  ◌+◌, ◌%◌, ◌≡◌, refl, true, false, some, List, [], ◌∷◌, length, done, arith, replicate,
}
use drogue_device.Driver.Matrix.{LedMatrix, MatrixCommand, on, off, apply_ascii, new}
use drogue_device.Driver.Matrix.Bitmap.{blank, clear}
use drogue_device.Driver.Matrix.Font.{mirror, to_frame, frame_of, glyphs, frame_5x5}
use drogue_device.Driver.Matrix.Words.{Shows, pixel}
use drogue_device.Driver.Matrix.Pixels.{clear-Shows, handle_all, handle_all-Shows, draw_all}
use drogue_device.Driver.Matrix.Scan.{IsRunning, ShowsRow, refreshes, refreshes-ShowsRow}

-- Five rows and five columns, every 200 ms, and an address.
abbrev five : LedMatrix
five = record (new (replicate 5 false) (replicate 5 false) (some 200)) {
  mounted = true;
  timer = true;
}

abbrev letter : LedMatrix
letter = record five { frame_buffer = to_frame 76; row_p = 3 }

mirrored : mirror 0b10100 ≡ 0b00101
unfolding mirror
mirrored = refl

dark : Shows five.frame_buffer (λ i j. false)
unfolding new clear
dark = clear-Shows blank (pixel blank) (record { rows = refl; pixels = λ i j h l. refl })

abbrev commands : List MatrixCommand
commands = on 1 2 ∷ on 3 4 ∷ off 1 2 ∷ apply_ascii 76 ∷ on 0 0 ∷ []

handle_all-Shows_example :
    (n : LedMatrix) × (handle_all commands five ≡ done n)
    × Shows n.frame_buffer (draw_all commands (λ i j. false))
handle_all-Shows_example =
    handle_all-Shows commands five (λ i j. false)
      (
        (omega arith, omega arith),
        (
          (omega arith, omega arith),
          ((omega arith, omega arith), (tt, ((omega arith, omega arith), tt))),
        ),
      )
      dark

letter-IsRunning : IsRunning 200 letter
unfolding new to_frame frame_of glyphs frame_5x5
letter-IsRunning = record {
  mounted = refl;
  bound = refl;
  delay = refl;
  bitmap = refl;
  rows = omega arith;
  cols = omega arith;
  in_range = omega arith;
}

refreshes-ShowsRow_example :
    (n : LedMatrix) × (refreshes 4 (letter, []) ≡ done (n, 200 ∷ []))
    × ShowsRow letter.frame_buffer ((letter.row_p + 3) % length letter.pin_rows) n
refreshes-ShowsRow_example = refreshes-ShowsRow 3 200 letter letter-IsRunning
