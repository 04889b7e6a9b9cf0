-- ===== src/Console/Edges.antt =====
-- The edges of the screen in kernel/src/console.c: positions outside, and scrolling.
use mnes_hrel.Common.{
  ℕ, ◌+◌, ◌*◌, ◌≤◌, ◌<◌, ◌≡◌, refl, sym, ap, ◌∙◌, length, false, leb, u32, ◌/◌, Outcome, returned,
  fault, and_then, arith, Text, [], ◌∷◌,
}
use mnes_hrel.Console.{Console, scroll, console_write, console_write_at, console_writestr}
use mnes_hrel.Console.Cell.{IsScreen}

double : (w h : ℕ) → 2 * w * h ≡ 2 * (h * w)
double w h = grind arith

module _ (s : Console) (screen : IsScreen s) (wide : 1 ≤ s.res_width)
    (bytes : 16 * s.res_width + 2 * s.fb_pixels < 4294967296) where
  -- A scroll of such a screen copies from behind the frame buffer: the line that it starts from is
  -- counted in pixels by a number of bytes.
  pub scroll-fault : scroll s ≡ fault
  unfolding scroll
  scroll-fault =
      let sum : 2 * s.res_width * s.res_height ≡ 2 * s.fb_pixels =
        double s.res_width s.res_height ∙ ap (λ (n : ℕ). 2 * n) (sym screen.whole) in
      let from : u32 (2 * s.res_width * 8) ≡ 16 * s.res_width = omega (arith, bytes) in
      let count : u32 (2 * s.res_width * s.res_height) / 2 ≡ s.fb_pixels =
        omega (arith, sum, bytes) in
      let outside : leb (u32 (2 * s.res_width * 8) + u32 (2 * s.res_width * s.res_height) / 2)
            s.fb_pixels
          ≡ false =
        ground (arith, from, count, wide) in
      rw outside refl

module _ (font : ℕ → ℕ → ℕ) (back : ℕ) where
  -- On a screen with a pixel in the frame buffer for each position, at least one pixel wide and
  -- with its numbers of bytes in 32 bits, a line break scrolls the screen and so copies from
  -- behind the frame buffer: a fault.
  pub console_write-fault :
      (s : Console)
      → IsScreen s
      → 1 ≤ s.res_width
      → 16 * s.res_width + 2 * s.fb_pixels < 4294967296
      → console_write font back 10 s ≡ fault
  unfolding console_write
  console_write-fault s screen wide bytes =
      scroll-fault (record s { x_pos = 0 })
        (record {
          whole = screen.whole;
          small = screen.small;
          width = screen.width;
          height = screen.height;
        })
        wide bytes

  outside_lem :
      (x y c : ℕ) (s : Console)
      → s.res_width < x + 8
      → x + 8 < 4294967296
      → console_write_at font back x y c s ≡ returned s
  unfolding console_write_at
  outside_lem x y c s out word = ground (arith, out, word)

  -- A string behind the right edge, whose last column is within 32 bits, draws nothing.
  pub console_writestr-outside :
      (x y : ℕ) (str : Text) (s : Console)
      → s.res_width < x + 8
      → x + 8 * length str < 4294967296
      → console_writestr font back x y str s ≡ returned s
  unfolding console_writestr
  console_writestr-outside x y [] s out word = refl
  console_writestr-outside x y (c ∷ str) s out word =
      let next : u32 (x + 8) ≡ x + 8 = omega (arith, word) in
      ap
        (λ (o : Outcome Console).
          and_then o (λ after. console_writestr font back (u32 (x + 8)) y str after))
        (outside_lem x y c s out (omega (arith, word)))
      ∙ ap (λ (i : ℕ). console_writestr font back i y str s) next
      ∙ console_writestr-outside (x + 8) y str s (omega (arith, out)) (omega (arith, word))
