-- ===== src/Driver/Matrix/Words.antt =====
-- The words of a frame as rows of pixels.
use drogue_device.Base.{
  ℕ, zero, suc, ◌+◌, ◌-◌, ◌*◌, ◌/◌, ◌%◌, ◌^◌, ◌≤◌, ◌<◌, min, max, ◌≡◌, refl, sym, ap, ◌∙◌, Bool,
  true, false, not, ◌&&◌, ◌||◌, ◌==◌, ==_iff, if◌then◌else◌, bit_and, bit_or, Option, none, some,
  List, [], ◌∷◌, map, length, get_elem?, length-set, Outcome, done, ◌>>=◌, arith, ◌⊎◌, inl, inr,
  Bool-cases,
}
use drogue_device.Base.Bits.{pow_pos}
use drogue_device.Base.Bits.At.{
  bit_at, bit_at-bound, bit_at-bit_or, bit_at-bit_and, bit_at-pow, bit_at-complement, bit_and-pow,
}
use drogue_device.Base
use drogue_device.Driver.Matrix.Bitmap.{Frame, is_set}

abbrev pub word : ℕ → List ℕ → ℕ
word x [] = 0
word zero (m ∷ ms) = m
word (suc x) (m ∷ ms) = word x ms

abbrev pub pixel : Frame → (x y : ℕ) → Bool
pixel f x y = bit_at y (word x f.bitmap) == 1

pub get_elem?-word : (x : ℕ) (ms : List ℕ) → x < length ms → get_elem? ms x ≡ some (word x ms)
get_elem?-word x [] h = absurd (omega arith)
get_elem?-word zero (m ∷ ms) h = refl
get_elem?-word (suc x) (m ∷ ms) h = get_elem?-word x ms (omega arith)

word-set :
    (x z v : ℕ) (ms : List ℕ)
    → z < length ms
    → word x (Base.set ms z v) ≡ (if x == z then v else word x ms)
word-set x z v [] h = absurd (omega arith)
word-set zero zero v (m ∷ ms) h = refl
word-set zero (suc z) v (m ∷ ms) h = ground arith
word-set (suc x) zero v (m ∷ ms) h = ground arith
word-set (suc x) (suc z) v (m ∷ ms) h = ground (arith, word-set x z v ms (omega arith))

div-pow_bit : (b y : ℕ) → b ≤ 1 → b * 2 ^ y / 2 ^ y ≡ b
div-pow_bit zero y h = omega (arith, pow_pos y)
div-pow_bit (suc zero) y h = grind (arith, pow_pos y)
div-pow_bit (suc (suc b)) y h = absurd (omega arith)

pub is_set-pixel :
    (x y : ℕ) (f : Frame) → x < length f.bitmap → y < 32 → is_set x y f ≡ done (pixel f x y)
unfolding is_set
is_set-pixel x y f h l =
    let fits : y % 32 ≡ y = omega arith in
    rw
      (
        get_elem?-word x f.bitmap h,
        fits,
        bit_and-pow y (word x f.bitmap),
        div-pow_bit (bit_at y (word x f.bitmap)) y (bit_at-bound y (word x f.bitmap)),
      )
      refl

pub record Shows (f : Frame) (p : ℕ → ℕ → Bool) : Type 0 where
  pub rows : length f.bitmap ≡ 32
  pub pixels : (i j : ℕ) → i < 32 → j < 32 → pixel f i j ≡ p i j

pub bit_at-word_or :
    (j y m : ℕ)
    → j < 32
    → y < 32
    → (bit_at j (bit_or m (2 ^ (y % 32))) == 1) ≡ (j == y || bit_at j m == 1)
bit_at-word_or j y m h l =
    let fits : y % 32 ≡ y = omega arith in
    rw (fits, bit_at-bit_or j m (2 ^ y), bit_at-pow j y) (ground (arith, bit_at-bound j m))

pub bit_at-word_and :
    (j y m : ℕ)
    → j < 32
    → y < 32
    → (bit_at j (bit_and m (2 ^ 32 - 1 - 2 ^ (y % 32))) == 1) ≡ (not (j == y) && bit_at j m == 1)
bit_at-word_and j y m h l =
    let fits : y % 32 ≡ y = omega arith in
    rw (fits, bit_at-bit_and j m (2 ^ 32 - 1 - 2 ^ y), bit_at-complement 32 j y h l)
      (ground (arith, bit_at-bound j m))

pub length-map : (ms : List ℕ) → length (map {B = ℕ} (λ m. 0) ms) ≡ length ms
length-map [] = refl
length-map (m ∷ ms) = omega (arith, length-map ms)

pub word-map : (x : ℕ) (ms : List ℕ) → word x (map (λ m. 0) ms) ≡ 0
word-map x [] = refl
word-map zero (m ∷ ms) = refl
word-map (suc x) (m ∷ ms) = word-map x ms

-- A word is replaced: its pixels are those of the new word, and the others stay.
pub pixel-set :
    (f : Frame) (x v i j : ℕ)
    → x < length f.bitmap
    → pixel (record { bitmap = Base.set f.bitmap x v }) i j
      ≡ (if i == x then bit_at j v == 1 else pixel f i j)
pixel-set f x v i j h = rw (word-set i x v f.bitmap h) (go (i == x))
  where
    go :
        (b : Bool)
        → (bit_at j (if b then v else word i f.bitmap) == 1)
          ≡ (if b then bit_at j v == 1 else pixel f i j)
    go true = refl
    go false = refl

pub replaced-Shows :
    (f : Frame) (x v : ℕ) (p : ℕ → ℕ → Bool) (q : ℕ → Bool → Bool)
    → x < 32
    → Shows f p
    → ((j : ℕ) → j < 32 → (bit_at j v == 1) ≡ q j (bit_at j (word x f.bitmap) == 1))
    → Shows
        (record { bitmap = Base.set f.bitmap x v })
        (λ i j. if i == x then q j (p i j) else p i j)
replaced-Shows f x v p q h s word_is = record {
  rows = length-set f.bitmap x v ∙ s.rows;
  pixels = pixels;
}
  where
    pixels :
        (i j : ℕ)
        → i < 32
        → j < 32
        → pixel (record { bitmap = Base.set f.bitmap x v }) i j
          ≡ (if i == x then q j (p i j) else p i j)
    pixels i j hi hj = pixel-set f x v i j (rw s.rows h) ∙ go (i == x) refl
      where
        go :
            (b : Bool)
            → (i == x) ≡ b
            → (if b then bit_at j v == 1 else pixel f i j) ≡ (if b then q j (p i j) else p i j)
        go true e =
            let same : i ≡ x = (==_iff i x).0 e in
            word_is j hj ∙ ap (λ k. q j (pixel f k j)) (sym same) ∙ ap (q j) (s.pixels i j hi hj)
        go false e = s.pixels i j hi hj

pub Shows-same :
    (f : Frame) (p q : ℕ → ℕ → Bool) → Shows f p → ((i j : ℕ) → p i j ≡ q i j) → Shows f q
Shows-same f p q s same = record { rows = s.rows; pixels = λ i j h l. s.pixels i j h l ∙ same i j }
