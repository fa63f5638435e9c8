-- ===== src/Driver/Matrix/Font.antt =====
-- `frame_5x5` and `to_frame` of src/driver/led/matrix.rs: the letters, by their code points.
use drogue_device.Base.{
  ℕ, ◌*◌, ◌/◌, ◌^◌, ◌||◌, ◌==◌, if◌then◌else◌, bit_and, bit_or, List, [], ◌∷◌, replicate,
}
use drogue_device.Driver.Matrix.Bitmap.{Frame, blank}

-- The lowest five bits in the other order.
unfoldable pub mirror : ℕ → ℕ
mirror bm =
    bit_or
      (bit_or
        (bit_or (bit_or (bit_and bm 0x01 * 2 ^ 4) (bit_and bm 0x02 * 2 ^ 2)) (bit_and bm 0x04))
        (bit_and bm 0x08 / 2 ^ 2))
      (bit_and bm 0x10 / 2 ^ 4)

unfoldable pub frame_5x5 : (a b c d e : ℕ) → Frame
frame_5x5 a b c d e = record {
  bitmap = mirror a ∷ mirror b ∷ mirror c ∷ mirror d ∷ mirror e ∷ replicate 27 0;
}

-- An arm of the `match`: two characters (twice the same if there is one), and five rows.
pub record Glyph : Type 0 where
  pub small : ℕ
  pub capital : ℕ
  pub rows : ℕ × ℕ × ℕ × ℕ × ℕ

glyph : (small capital a b c d e : ℕ) → Glyph
glyph small capital a b c d e = record { small = small; capital = capital; rows = (a, b, c, d, e) }

unfoldable pub glyphs : List Glyph
unfolding glyph
glyphs =
    glyph 97 65 0b11111 0b10001 0b11111 0b10001 0b10001
    ∷ glyph 98 66 0b11110 0b10001 0b11111 0b10001 0b11110
    ∷ glyph 99 67 0b11111 0b10000 0b10000 0b10000 0b11111
    ∷ glyph 100 68 0b11110 0b10001 0b10001 0b10001 0b11110
    ∷ glyph 101 69 0b11111 0b10000 0b11110 0b10000 0b11111
    ∷ glyph 102 70 0b11111 0b10000 0b11110 0b10000 0b10000
    ∷ glyph 103 71 0b11111 0b10000 0b10111 0b10001 0b11111
    ∷ glyph 104 72 0b10001 0b10001 0b11111 0b10001 0b10001
    ∷ glyph 105 73 0b100100 0b100100 0b100100 0b100100 0b100100
    ∷ glyph 106 74 0b11111 0b00010 0b00010 0b10010 0b11110
    ∷ glyph 107 75 0b10010 0b10100 0b11000 0b10100 0b10010
    ∷ glyph 108 76 0b10000 0b10000 0b10000 0b10000 0b11111
    ∷ glyph 109 77 0b10001 0b11011 0b10101 0b10001 0b10001
    ∷ glyph 110 78 0b10001 0b11001 0b10101 0b10011 0b10001
    ∷ glyph 111 79 0b11111 0b10001 0b10001 0b10001 0b11111
    ∷ glyph 112 80 0b11111 0b10001 0b11111 0b10000 0b10000
    ∷ glyph 113 81 0b11111 0b10001 0b10001 0b10011 0b11111
    ∷ glyph 114 82 0b11111 0b10001 0b11111 0b10010 0b10001
    ∷ glyph 115 83 0b11111 0b10000 0b11111 0b00001 0b11111
    ∷ glyph 116 84 0b11111 0b00100 0b00100 0b00100 0b00100
    ∷ glyph 117 85 0b10001 0b10001 0b10001 0b10001 0b11111
    ∷ glyph 118 86 0b10001 0b10001 0b01010 0b01010 0b00100
    ∷ glyph 119 87 0b10001 0b10001 0b10101 0b11011 0b10001
    ∷ glyph 120 88 0b10001 0b01010 0b00100 0b01010 0b10001
    ∷ glyph 121 89 0b10001 0b01010 0b00100 0b00100 0b00100
    ∷ glyph 122 90 0b11111 0b00010 0b00100 0b01000 0b11111
    ∷ glyph 33 33 0b00100 0b00100 0b00100 0b00000 0b00100
    ∷ glyph 63 63 0b11111 0b00001 0b00111 0b00000 0b00100
    ∷ []

abbrev pub shown : Glyph → Frame
shown g = let (a, b, c, d, e) = g.rows in frame_5x5 a b c d e

-- The first arm that has the character; any other character is blank.
unfoldable pub frame_of : ℕ → List Glyph → Frame
frame_of c [] = blank
frame_of c (g ∷ gs) = if c == g.small || c == g.capital then shown g else frame_of c gs

unfoldable pub to_frame : ℕ → Frame
to_frame c = frame_of c glyphs
