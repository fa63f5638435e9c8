-- ===== src/Driver/Matrix/Scan.antt =====
-- The refresh of an LED matrix row by row.
use drogue_device.Base.{
  ℕ, zero, suc, ◌+◌, ◌%◌, ◌≤◌, ◌<◌, ◌≡◌, refl, ap, ◌∙◌, Bool, true, false, not, ◌==◌, some, List,
  [], ◌∷◌, length, get_elem?, Outcome, done, ◌>>=◌, arith,
}
use mathlib.Core.Path.{subst}
use native.Mathlib.Nat.{mod-lt, mod-add-mod, mod-eq_of_lt}
use drogue_device.Driver.Matrix.{LedMatrix, renders, on_notify, render, set_cols, set_high, all_low}
use drogue_device.Driver.Matrix.Bitmap.{Frame}
use drogue_device.Driver.Matrix.Words.{pixel, is_set-pixel}

-- A matrix that is mounted and bound to its timer, whose pins the bitmap covers, and whose refresh rate converts to `d`.
pub record IsRunning (d : ℕ) (m : LedMatrix) : Type 0 where
  pub mounted : m.mounted ≡ true
  pub bound : m.timer ≡ true
  pub delay : m.refresh ≡ some d
  pub bitmap : length m.frame_buffer.bitmap ≡ 32
  pub rows : length m.pin_rows ≤ 32
  pub cols : length m.pin_cols ≤ 32
  pub in_range : m.row_p < length m.pin_rows

-- Row `r` is high and all others low; a column is low where row `r` of the frame has a pixel.
pub record ShowsRow (f : Frame) (r : ℕ) (m : LedMatrix) : Type 0 where
  pub frame : m.frame_buffer ≡ f
  pub rows : (i : ℕ) → i < length m.pin_rows → get_elem? m.pin_rows i ≡ some (i == r)
  pub cols : (j : ℕ) → j < length m.pin_cols → get_elem? m.pin_cols j ≡ some (not (pixel f r j))

length-all_low : (rows : List Bool) → length (all_low rows) ≡ length rows
length-all_low [] = refl
length-all_low (row ∷ rows) = ap suc (length-all_low rows)

low : (rows : List Bool) (i : ℕ) → i < length rows → get_elem? (all_low rows) i ≡ some false
low [] i h = absurd (omega arith)
low (row ∷ rows) zero h = refl
low (row ∷ rows) (suc i) h = low rows i (omega arith)

high :
    (r : ℕ) (rows : List Bool)
    → r < length rows
    → (levels : List Bool) × (set_high r (all_low rows) ≡ done levels)
      × (length levels ≡ length rows)
      × ((i : ℕ) → i < length rows → get_elem? levels i ≡ some (i == r))
high r [] h = absurd (omega arith)
high zero (row ∷ rows) h = (true ∷ all_low rows, refl, ap suc (length-all_low rows), levels)
  where
    levels : (i : ℕ) → i < suc (length rows) → get_elem? (true ∷ all_low rows) i ≡ some (i == 0)
    levels zero l = refl
    levels (suc i) l = low rows i (omega arith) ∙ ground arith
high (suc r) (row ∷ rows) h =
    let (rest, e, same, at) = high r rows (omega arith) in
    (false ∷ rest, rw e refl, ap suc same, levels rest at)
  where
    levels :
        (rest : List Bool)
        → ((i : ℕ) → i < length rows → get_elem? rest i ≡ some (i == r))
        → (i : ℕ) → i < suc (length rows)
        → get_elem? (false ∷ rest) i ≡ some (i == suc r)
    levels rest at zero l = ground arith
    levels rest at (suc i) l = at i (omega arith) ∙ ground arith

at_column : (f : Frame) (r j k : ℕ) → j ≡ k → some (not (pixel f r j)) ≡ some (not (pixel f r k))
at_column f r j k e = ap (λ k. some (not (pixel f r k))) e

columns :
    (f : Frame) (r c : ℕ) (pins : List Bool)
    → r < length f.bitmap
    → c + length pins ≤ 32
    → (levels : List Bool) × (set_cols f r c pins ≡ done levels)
      × (length levels ≡ length pins)
      × ((j : ℕ) → j < length pins → get_elem? levels j ≡ some (not (pixel f r (c + j))))
unfolding set_cols
columns f r c [] h l = ([], refl, refl, λ j lt. absurd (omega arith))
columns f r c (pin ∷ pins) h l =
    let (rest, e, same, at) = columns f r (suc c) pins h (omega arith) in
    (
      not (pixel f r c) ∷ rest,
      rw (is_set-pixel r c f h (omega arith), e) refl,
      ap suc same,
      levels rest at,
    )
  where
    levels :
        (rest : List Bool)
        → ((j : ℕ) → j < length pins → get_elem? rest j ≡ some (not (pixel f r (suc c + j))))
        → (j : ℕ) → j < suc (length pins)
        → get_elem? (not (pixel f r c) ∷ rest) j ≡ some (not (pixel f r (c + j)))
    levels rest at zero lt = at_column f r c (c + 0) (omega arith)
    levels rest at (suc j) lt =
        at j (omega arith) ∙ at_column f r (suc c + j) (c + suc j) (omega arith)

nonempty : {i n : ℕ} → i < n → 0 < n
nonempty h = omega arith

refresh_once :
    (d : ℕ) (m : LedMatrix)
    → IsRunning d m
    → (n : LedMatrix) × (on_notify renders m ≡ done (n, d ∷ []))
      × ShowsRow m.frame_buffer m.row_p n
      × IsRunning d n
      × (length n.pin_rows ≡ length m.pin_rows)
      × (n.row_p ≡ (m.row_p + 1) % length m.pin_rows)
unfolding on_notify render
refresh_once d m s =
    let (cols, e, same_cols, col_at) =
      columns m.frame_buffer m.row_p 0 m.pin_cols (omega (arith, s.in_range, s.rows, s.bitmap))
        (omega (arith, s.cols)) in
    let (rows, e', same_rows, row_at) = high m.row_p m.pin_rows s.in_range in
    (
      record m { pin_rows = rows; pin_cols = cols; row_p = (m.row_p + 1) % length rows },
      rw (e, e', s.mounted, s.bound, s.delay) refl,
      record {
        frame = refl;
        rows = λ i l. row_at i (omega arith);
        cols = λ j l.
            col_at j (omega arith) ∙ at_column m.frame_buffer m.row_p (0 + j) j (omega arith);
      },
      record {
        mounted = s.mounted;
        bound = s.bound;
        delay = s.delay;
        bitmap = s.bitmap;
        rows = omega (arith, s.rows, same_rows);
        cols = omega (arith, s.cols, same_cols);
        in_range = omega (arith, same_rows, mod-lt (m.row_p + 1) (nonempty s.in_range));
      },
      same_rows,
      ap (λ k. (m.row_p + 1) % k) same_rows,
    )

-- `n` refreshes one after the other, with what the last one schedules.
abbrev pub refreshes : ℕ → LedMatrix × List ℕ → Outcome (LedMatrix × List ℕ)
refreshes zero s = done s
refreshes (suc n) (m, delays) = do next ← on_notify renders m; refreshes n next

row_after :
    (r k : ℕ) {r' size size' : ℕ}
    → size' ≡ size
    → r' ≡ (r + 1) % size
    → (r' + k) % size' ≡ (r + suc k) % size
row_after r k {size = size} same moved =
    rw (same, moved, mod-add-mod (r + 1) size k) (ap (λ a. a % size) (omega arith))

moved_row :
    {f g : Frame} {r r' : ℕ} {m : LedMatrix} → f ≡ g → r ≡ r' → ShowsRow f r m → ShowsRow g r' m
moved_row {f} {g} {r} {r'} {m} e e' s =
    subst (λ h. ShowsRow h r' m) e (subst (λ k. ShowsRow f k m) e' s)

-- A matrix of at most 32 rows and columns that is mounted and bound, with a frame of 32 words, a
-- refresh rate that converts and its row counter in range, handles the render command k + 1 times
-- without a panic, schedules the next one each time, and then has just the row high that lies k
-- after the row it began with, modulo the number of rows, with just those columns low where this
-- row of the frame has a pixel; the frame is unchanged.
pub refreshes-ShowsRow :
    (k d : ℕ) (m : LedMatrix)
    → IsRunning d m
    → (n : LedMatrix) × (refreshes (suc k) (m, []) ≡ done (n, d ∷ []))
      × ShowsRow m.frame_buffer ((m.row_p + k) % length m.pin_rows) n
refreshes-ShowsRow zero d m s =
    let (n, e, t, running, same_rows, moved) = refresh_once d m s in
    let sum : m.row_p + 0 ≡ m.row_p = omega arith in
    let same : (m.row_p + 0) % length m.pin_rows ≡ m.row_p =
      ap (λ k. k % length m.pin_rows) sum ∙ mod-eq_of_lt s.in_range in
    (n, rw e refl, rw same t)
refreshes-ShowsRow (suc k) d m s =
    let (next, e, shown, running, same, moved) = refresh_once d m s in
    let (n, e', t) = refreshes-ShowsRow k d next running in
    (n, rw e e', moved_row shown.frame (row_after m.row_p k same moved) t)
