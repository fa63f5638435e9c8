-- ===== src/Driver/Matrix/Pixels.antt =====
-- A frame as a set of lit pixels.
use drogue_device.Base.{
  ℕ, zero, suc, ◌+◌, ◌-◌, ◌*◌, ◌/◌, ◌%◌, ◌^◌, ◌≤◌, ◌<◌, min, max, ◌≡◌, refl, sym, ap, ◌∙◌, Bool,
  true, false, not, ◌&&◌, ◌||◌, ◌==◌, ==_iff, if◌then◌else◌, bit_and, bit_or, Option, none, some,
  List, [], ◌∷◌, map, length, get_elem?, length-set, Outcome, done, ◌>>=◌, arith, ◌⊎◌, inl, inr,
  Bool-cases,
}
use drogue_device.Base.Bits.At.{bit_at-zero}
use drogue_device.Base
use drogue_device.Driver.Matrix.{
  LedMatrix, MatrixCommand, on, off, clears, apply_ascii, renders, on_notify,
}
use drogue_device.Driver.Matrix.Font.{Glyph, glyphs, shown, frame_of, to_frame, frame_5x5}
use drogue_device.Driver.Matrix.Bitmap.{Frame, bit, clear, set, unset}
use drogue_device.Driver.Matrix.Words.{
  pixel, word, get_elem?-word, bit_at-word_or, bit_at-word_and, length-map, word-map, Shows,
  replaced-Shows, Shows-same,
}

-- The pixels after a command that draws.
abbrev pub draw : MatrixCommand → (ℕ → ℕ → Bool) → ℕ → ℕ → Bool
draw (on x y) p i j = (i == x && j == y) || p i j
draw (off x y) p i j = not (i == x && j == y) && p i j
draw clears p i j = false
draw (apply_ascii c) p i j = pixel (to_frame c) i j
draw renders p i j = p i j

abbrev pub draw_all : List MatrixCommand → (ℕ → ℕ → Bool) → ℕ → ℕ → Bool
draw_all [] p = p
draw_all (command ∷ commands) p = draw_all commands (draw command p)

-- Coordinates lie within the bitmap.
abbrev pub IsDrawing : MatrixCommand → Type 0
IsDrawing (on x y) = (x < 32) × (y < 32)
IsDrawing (off x y) = (x < 32) × (y < 32)
IsDrawing renders = ⊥
IsDrawing _ = Unit {0}

abbrev pub AllDrawing : List MatrixCommand → Type 0
AllDrawing [] = Unit {0}
AllDrawing (command ∷ commands) = IsDrawing command × AllDrawing commands

set-Shows :
    (x y : ℕ) (f : Frame) (p : ℕ → ℕ → Bool)
    → x < 32
    → y < 32
    → Shows f p
    → (g : Frame) × (set x y f ≡ done g) × Shows g (draw (on x y) p)
unfolding set
set-Shows x y f p h l s = (
  record { bitmap = Base.set f.bitmap x (bit_or (word x f.bitmap) (bit y)) },
  rw (get_elem?-word x f.bitmap (rw s.rows h)) refl,
  Shows-same _ _ (draw (on x y) p)
      (replaced-Shows f x (bit_or (word x f.bitmap) (bit y)) p (λ j b. j == y || b) h s
        (λ j hj. bit_at-word_or j y (word x f.bitmap) hj l))
      (λ i j. either (i == x) (j == y) (p i j)),
)
  where
    either : (a b c : Bool) → (if a then b || c else c) ≡ (a && b || c)
    either true b c = refl
    either false b c = refl

unset-Shows :
    (x y : ℕ) (f : Frame) (p : ℕ → ℕ → Bool)
    → x < 32
    → y < 32
    → Shows f p
    → (g : Frame) × (unset x y f ≡ done g) × Shows g (draw (off x y) p)
unfolding unset
unset-Shows x y f p h l s = (
  record { bitmap = Base.set f.bitmap x (bit_and (word x f.bitmap) (2 ^ 32 - 1 - bit y)) },
  rw (get_elem?-word x f.bitmap (rw s.rows h)) refl,
  Shows-same _ _ (draw (off x y) p)
      (replaced-Shows f x (bit_and (word x f.bitmap) (2 ^ 32 - 1 - bit y)) p
        (λ j b. not (j == y) && b) h s (λ j hj. bit_at-word_and j y (word x f.bitmap) hj l))
      (λ i j. both (i == x) (j == y) (p i j)),
)
  where
    both : (a b c : Bool) → (if a then not b && c else c) ≡ (not (a && b) && c)
    both true b c = refl
    both false b c = refl

pub clear-Shows : (f : Frame) (p : ℕ → ℕ → Bool) → Shows f p → Shows (clear f) (λ i j. false)
unfolding clear
clear-Shows f p s = record {
  rows = length-map f.bitmap ∙ s.rows;
  pixels = λ i j h l. rw (word-map i f.bitmap, bit_at-zero j) refl;
}

length-frame_of : (c : ℕ) (gs : List Glyph) → length (frame_of c gs).bitmap ≡ 32
unfolding frame_of frame_5x5
length-frame_of c [] = refl
length-frame_of c (g ∷ gs) = go (c == g.small || c == g.capital) (length-frame_of c gs)
  where
    go :
        (b : Bool)
        → length (frame_of c gs).bitmap ≡ 32
        → length (if b then shown g else frame_of c gs).bitmap ≡ 32
    go true h = refl
    go false h = h

draw-Shows :
    (command : MatrixCommand) (m : LedMatrix) (p : ℕ → ℕ → Bool)
    → IsDrawing command
    → Shows m.frame_buffer p
    → (n : LedMatrix) × (on_notify command m ≡ done (n, [])) × Shows n.frame_buffer (draw command p)
unfolding on_notify to_frame
draw-Shows (on x y) m p h s =
    let (g, e, t) = set-Shows x y m.frame_buffer p h.0 h.1 s in
    (record m { frame_buffer = g }, rw e refl, t)
draw-Shows (off x y) m p h s =
    let (g, e, t) = unset-Shows x y m.frame_buffer p h.0 h.1 s in
    (record m { frame_buffer = g }, rw e refl, t)
draw-Shows clears m p h s =
    (record m { frame_buffer = clear m.frame_buffer }, refl, clear-Shows m.frame_buffer p s)
draw-Shows (apply_ascii c) m p h s = (
  record m { frame_buffer = to_frame c },
  refl,
  record { rows = length-frame_of c glyphs; pixels = λ i j hi hj. refl },
)
draw-Shows renders m p h s = absurd h

-- The commands one after the other.
abbrev pub handle_all : List MatrixCommand → LedMatrix → Outcome LedMatrix
handle_all [] m = done m
handle_all (command ∷ commands) m = do (n, delays) ← on_notify command m; handle_all commands n

-- Any list of the commands on, off (with coordinates below 32), clear and apply-ascii is handled
-- without a panic, and the 32 words of the frame then show the set of pixels that the commands
-- draw one after the other: on adds a pixel, off removes it, clear removes all, and a character
-- replaces all by its glyph.
pub handle_all-Shows :
    (commands : List MatrixCommand) (m : LedMatrix) (p : ℕ → ℕ → Bool)
    → AllDrawing commands
    → Shows m.frame_buffer p
    → (n : LedMatrix) × (handle_all commands m ≡ done n)
      × Shows n.frame_buffer (draw_all commands p)
handle_all-Shows [] m p h s = (m, refl, s)
handle_all-Shows (command ∷ commands) m p h s =
    let (n, e, t) = draw-Shows command m p h.0 s in
    let (o, e', u) = handle_all-Shows commands n (draw command p) h.1 t in (o, rw e e', u)
