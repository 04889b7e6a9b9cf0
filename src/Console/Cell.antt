-- ===== src/Console/Cell.antt =====
-- What `console_write_at` of kernel/src/console.c draws: one cell of 8 by 8 pixels.
use mnes_hrel.Common.{
  ℕ, zero, suc, ◌+◌, ◌*◌, ◌/◌, ◌%◌, ◌^◌, bit_and, if◌then◌else◌, ◌≤◌, ◌<◌, ◌≡◌, refl, sym, ap, ◌∙◌,
  true, false, ◌==◌, ltb, u16, u32, update, Outcome, returned, and_then, arith, Bool-cases,
  eq_of_==, inl, inr, ◌⊎◌,
}
use mnes_hrel.Common.Bits.{bit_and-ones, bit_and-even}
use native.Mathlib.Nat.{pow-suc, one-le-pow}
use mnes_hrel.Console.{
  Console, set_pixel, glyph_bit, colour, glyph_row, glyph_rows, draw_glyph, console_write_at,
}

-- The binary digit `j` of `a`, from the lowest one on.
abbrev pub digit : ℕ → ℕ → ℕ
digit zero a = a % 2
digit (suc j) a = digit j (a / 2)

-- The pixel in column `k` of a row of a glyph: white or black by the digit before that of the column, and
-- in column 0 by what the machine gives for `1 << -1`.
abbrev pub pixel_of : ℕ → ℕ → ℕ → ℕ
pixel_of back row zero = if bit_and row back == 0 then 0x0000 else 0xFFFF
pixel_of back row (suc j) = 0xFFFF * digit j row

digit-le : (j a : ℕ) → digit j a ≤ 1
digit-le zero a = omega arith
digit-le (suc j) a = digit-le j (a / 2)

twice : (d p : ℕ) → d * p * 2 ≡ d * (2 * p)
twice d p = grind arith

bit_and-digit : (j a : ℕ) → bit_and a (2 ^ j) ≡ digit j a * 2 ^ j
bit_and-digit zero a = omega (arith, bit_and-ones 1 a)
bit_and-digit (suc j) a =
    let double : 2 ^ suc j ≡ 2 * 2 ^ j = omega (arith, pow-suc 2 j) in
    rw double
      (rw (bit_and-even a (2 ^ j)) (rw (bit_and-digit j (a / 2)) (twice (digit j (a / 2)) (2 ^ j))))

-- The place of the pixel in column `x` of line `y`.
abbrev pub place : Console → ℕ → ℕ → ℕ
place s x y = y * s.res_width + x

-- A frame buffer of the whole screen, in 32-bit sizes.
pub record IsScreen (s : Console) : Type 0 where
  pub whole : s.fb_pixels ≡ s.res_height * s.res_width
  pub small : s.fb_pixels < 4294967296
  pub width : s.res_width < 2147483648
  pub height : s.res_height < 2147483648

set_pixel_inside :
    (x y v : ℕ) (s : Console)
    → place s x y < s.fb_pixels
    → s.fb_pixels < 4294967296
    → v < 65536
    → set_pixel x y v s ≡ returned (record s { fb = update s.fb (place s x y) v })
unfolding set_pixel
set_pixel_inside x y v s inside small word =
    let index : u32 (place s x y) ≡ place s x y = omega arith in
    let value : u16 v ≡ v = omega arith in ground (arith, index, value)

pub mul_step : (r h w : ℕ) → r + 1 ≤ h → r * w + w ≤ h * w
mul_step r h w below = grind arith

module _ (font : ℕ → ℕ → ℕ) (back : ℕ) where
  -- The pixels of one row from column `j` on, and the rest of the buffer.
  record Row (row n j x y : ℕ) (s : Console) (o : Outcome Console) : Type 0 where
    fb' : ℕ → ℕ
    comes_back : o ≡ returned (record s { fb = fb' })
    drawn : (k : ℕ) → j ≤ k → k < j + n → fb' (place s (x + k) y) ≡ colour font back row k
    kept : (a : ℕ) → (a < place s (x + j) y) ⊎ (place s (x + j) y + n ≤ a) → fb' a ≡ s.fb a

  colour_lem : (row j : ℕ) → colour font back row j < 65536
  colour_lem row j = elim (Bool-cases (glyph_bit font back row j)) [
    | inl set ↦ ground (arith, set)
    | inr clear ↦ ground (arith, clear)
  ]

  glyph_row-Row :
      (n row j x y : ℕ) (s : Console)
      → place s (x + j) y + n ≤ s.fb_pixels
      → s.fb_pixels < 4294967296
      → x + j + n < 4294967296
      → Row row n j x y s (glyph_row font back n row j x y s)
  unfolding glyph_row
  glyph_row-Row zero row j x y s inside small fits = record {
    fb' = s.fb;
    comes_back = refl;
    drawn = λ k low high. absurd (omega arith);
    kept = λ a out. refl;
  }
  glyph_row-Row (suc n) row j x y s inside small fits =
      let column : u32 (x + j) ≡ x + j = omega arith in
      let c : ℕ = colour font back row j in
      let here : ℕ = place s (x + j) y in
      let after : Console = record s { fb = update s.fb here c } in
      let first : set_pixel (u32 (x + j)) y c s ≡ returned after =
        ap (λ (i : ℕ). set_pixel i y c s) column
        ∙ set_pixel_inside (x + j) y c s (omega arith) small (colour_lem row j) in
      let rest : Row row n (j + 1) x y after (glyph_row font back n row (j + 1) x y after) =
        glyph_row-Row n row (j + 1) x y after (omega arith) small (omega arith) in
      let at_here : rest.fb' here ≡ c = rest.kept here (inl (omega arith)) ∙ ground arith in
      record {
        fb' = rest.fb';
        comes_back =
            ap
              (λ (o : Outcome Console).
                and_then o (λ next. glyph_row font back n row (j + 1) x y next))
              first
            ∙ rest.comes_back;
        drawn = λ k low high. elim (Bool-cases (j == k)) [
          | inl same ↦
              let e : j ≡ k = eq_of_== j k same in
              ap rest.fb' (ap (λ (i : ℕ). place s (x + i) y) (sym e))
              ∙ at_here
              ∙ ap (colour font back row) e
          | inr other ↦ rest.drawn k (ground (arith, other)) (omega arith)
        ];
        kept = λ a out. elim out [
          | inl below ↦ rest.kept a (inl (omega arith)) ∙ ground arith
          | inr above ↦ rest.kept a (inr (omega arith)) ∙ ground arith
        ];
      }

  -- The rows from `i` on of the cell at column `x` and line `y`.
  record Rows (n c i x y : ℕ) (s : Console) (o : Outcome Console) : Type 0 where
    fb' : ℕ → ℕ
    comes_back : o ≡ returned (record s { fb = fb' })
    drawn :
        (r k : ℕ)
        → i ≤ r
        → r < i + n
        → k < 8
        → fb' (place s (x + k) (y + r)) ≡ colour font back (font c r) k
    kept :
        (a : ℕ)
        → ((r : ℕ) → i ≤ r → r < i + n → (a < place s x (y + r)) ⊎ (place s x (y + r) + 8 ≤ a))
        → fb' a ≡ s.fb a

  glyph_rows-Rows :
      (n c i x y : ℕ) (s : Console)
      → IsScreen s
      → x + 8 ≤ s.res_width
      → y + (i + n) ≤ s.res_height
      → Rows n c i x y s (glyph_rows font back n c i x y s)
  unfolding glyph_rows
  glyph_rows-Rows zero c i x y s screen columns lines = record {
    fb' = s.fb;
    comes_back = refl;
    drawn = λ r k low high eight. absurd (omega arith);
    kept = λ a out. refl;
  }
  glyph_rows-Rows (suc n) c i x y s screen columns lines =
      let line : u32 (y + i) ≡ y + i = omega (arith, screen.height) in
      let zero_column : x + 0 ≡ x = omega arith in
      let room : (y + i) * s.res_width + s.res_width ≤ s.res_height * s.res_width =
        mul_step (y + i) s.res_height s.res_width (omega arith) in
      let row : Row (font c i) 8 0 x (y + i) s (glyph_row font back 8 (font c i) 0 x (y + i) s) =
        glyph_row-Row 8 (font c i) 0 x (y + i) s (omega (arith, room, screen.whole)) screen.small
          (omega (arith, screen.width)) in
      let after : Console = record s { fb = row.fb' } in
      let screen' : IsScreen after = record {
        whole = screen.whole;
        small = screen.small;
        width = screen.width;
        height = screen.height;
      } in
      let rest : Rows n c (i + 1) x y after (glyph_rows font back n c (i + 1) x y after) =
        glyph_rows-Rows n c (i + 1) x y after screen' columns (omega arith) in
      record {
        fb' = rest.fb';
        comes_back =
            ap
              (λ (o : Outcome Console).
                and_then o (λ next. glyph_rows font back n c (i + 1) x y next))
              (ap (λ (l : ℕ). glyph_row font back 8 (font c i) 0 x l s) line ∙ row.comes_back)
            ∙ rest.comes_back;
        drawn = λ r k low high eight. elim (Bool-cases (i == r)) [
          | inl same ↦
              let e : i ≡ r = eq_of_== i r same in
              let before : rest.fb' (place s (x + k) (y + i)) ≡ row.fb' (place s (x + k) (y + i)) =
                rest.kept (place s (x + k) (y + i)) (λ q above below.
                  inl (omega (arith, mul_step (y + i) (y + q) s.res_width (omega arith)))) in
              ap (λ (q : ℕ). rest.fb' (place s (x + k) (y + q))) (sym e)
              ∙ before
              ∙ row.drawn k (omega arith) (omega arith)
              ∙ ap (λ (q : ℕ). colour font back (font c q) k) e
          | inr other ↦ rest.drawn r k (ground (arith, other)) (omega arith) eight
        ];
        kept = λ a out.
            rest.kept a (λ q above below. out q (omega arith) (omega arith))
            ∙ row.kept a (elim (out i (omega arith) (omega arith)) [
              | inl less ↦ inl (omega (arith, less))
              | inr more ↦ inr (omega (arith, more))
            ]);
      }

  colour-pixel_of : (row k : ℕ) → colour font back row k ≡ pixel_of back row k
  colour-pixel_of row zero = ground arith
  colour-pixel_of row (suc j) = elim (Bool-cases (digit j row == 0)) [
    | inl clear ↦ ground (arith, clear, bit_and-digit j row)
    | inr set ↦ ground (arith, set, bit_and-digit j row, digit-le j row, one-le-pow j 2)
  ]

  -- The cell at column `x` and line `y` with the glyph of `c`, and the rest as it was.
  pub record Draws (c x y : ℕ) (s : Console) (o : Outcome Console) : Type 0 where
    pub fb' : ℕ → ℕ
    pub comes_back : o ≡ returned (record s { fb = fb' })
    pub cell :
        (r k : ℕ) → r < 8 → k < 8 → fb' (place s (x + k) (y + r)) ≡ pixel_of back (font c r) k
    pub rest :
        (a : ℕ)
        → ((r : ℕ) → r < 8 → (a < place s x (y + r)) ⊎ (place s x (y + r) + 8 ≤ a))
        → fb' a ≡ s.fb a

  -- On a screen with a pixel in the frame buffer for each position, in 32-bit sizes, a character
  -- of the font is drawn where its cell of 8 by 8 pixels fits, without a write outside the frame
  -- buffer. In a row of the cell, each pixel but the first is white where the binary digit one
  -- before its column, from the lowest on, of that row of the glyph is 1, and black where it is
  -- 0; the first is white where the row has a bit of what the machine gives for `1 << -1`. No other
  -- pixel changes.
  pub console_write_at-Draws :
      (x y c : ℕ) (s : Console)
      → IsScreen s
      → c < 128
      → x + 8 ≤ s.res_width
      → y + 8 ≤ s.res_height
      → Draws c x y s (console_write_at font back x y c s)
  unfolding console_write_at draw_glyph
  console_write_at-Draws x y c s screen known columns lines =
      let column_test : ltb s.res_width (u32 (x + 8)) ≡ false =
        ground (arith, columns, screen.width) in
      let line_test : ltb s.res_height (u32 (y + 8)) ≡ false =
        ground (arith, lines, screen.height) in
      let font_test : ltb c 128 ≡ true = ground (arith, known) in
      let rows : Rows 8 c 0 x y s (glyph_rows font back 8 c 0 x y s) =
        glyph_rows-Rows 8 c 0 x y s screen columns (omega arith) in
      record {
        fb' = rows.fb';
        comes_back = rw column_test (rw line_test (rw font_test rows.comes_back));
        cell = λ r k eight_r eight_k.
            rows.drawn r k (omega arith) (omega arith) eight_k ∙ colour-pixel_of (font c r) k;
        rest = λ a out. rows.kept a (λ r low high. out r (omega arith));
      }
