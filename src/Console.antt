-- ===== src/Console.antt =====
-- kernel/src/console.c: text and a logo on a frame buffer of 16-bit pixels.
pub mod Pl110
pub mod Cell
pub mod Edges
mod Tests
use mnes_hrel.Common.{
  ℕ, zero, suc, ◌+◌, ◌-◌, ◌*◌, ◌/◌, ◌^◌, Bool, true, false, not, Option, none, some, ◌==◌, ltb, leb,
  if◌then◌else◌, nonzero, bit_and, u16, u32, update, Outcome, returned, fault, runs_on, and_then,
  Text, [], ◌∷◌,
}
use mnes_hrel.Console.Pl110.{Display}

-- `RAW_BMP`, with its pixels as the 16-bit values that the console reads.
pub record RawBmp : Type 0 where
  pub pixels : ℕ → ℕ
  pub pixel_count : ℕ
  pub width : ℕ
  pub height : ℕ

-- The globals, with the frame buffer of `fb_pixels` pixels, and the two members of `dispFormat` in
-- use.
pub record Console : Type 0 where
  pub fb : ℕ → ℕ
  pub fb_pixels : ℕ
  pub x_pos : ℕ
  pub line_width : ℕ
  pub res_width : ℕ
  pub res_height : ℕ
  pub console_logo : Option RawBmp

-- `SetPixel`.
unfoldable pub set_pixel : ℕ → ℕ → ℕ → Console → Outcome Console
set_pixel x y pixel_data s =
    let i : ℕ = u32 (y * s.res_width + x) in
    if ltb i s.fb_pixels then returned (record s { fb = update s.fb i (u16 pixel_data) }) else fault

-- A row of the logo from column `x` on. The loop ends where the column reaches the width of the
-- screen, after as many columns as the logo has at the latest.
unfoldable pub logo_row : ℕ → RawBmp → ℕ → ℕ → Console → Outcome Console
unfolding set_pixel
logo_row zero logo x y s = returned s
logo_row (suc n) logo x y s =
    let column : ℕ = u32 (x + u32 (s.res_width + 4294967296 - logo.width)) in
    let index : ℕ = u32 (y * logo.width + x) in
    if not (ltb column s.res_width)
    then returned s
    else if not (ltb index logo.pixel_count)
    then fault
    else and_then (set_pixel column y (logo.pixels index) s)
        (λ after. logo_row n logo (x + 1) y after)

unfoldable pub logo_rows : ℕ → RawBmp → ℕ → Console → Outcome Console
unfolding logo_row
logo_rows zero logo y s = returned s
logo_rows (suc n) logo y s =
    and_then (logo_row logo.width logo 0 y s) (λ after. logo_rows n logo (y + 1) after)

-- Called where there is a logo; the three colours that it computes are not used.
unfoldable pub console_draw_logo : RawBmp → Console → Outcome Console
unfolding logo_rows
console_draw_logo logo s = logo_rows logo.height logo 0 s

-- The drawing of the logo behind the test for NULL.
unfoldable pub draw_logo : Option RawBmp → Console → Outcome Console
unfolding console_draw_logo
draw_logo none s = returned s
draw_logo (some logo) s = console_draw_logo logo s

unfoldable pub console_set_logo : RawBmp → Console → Outcome Console
unfolding console_draw_logo
console_set_logo bmp s = elim s.console_logo [
  | none ↦ console_draw_logo bmp (record s { console_logo = some bmp })
  | some logo ↦ returned s
]

unfoldable pub console_cls : Console → Outcome Console
unfolding draw_logo
console_cls s =
    let count : ℕ = u32 (s.res_height * s.res_width * 2) / 2 in
    if leb count s.fb_pixels
    then draw_logo s.console_logo (record s { fb = λ i. if ltb i count then 0 else s.fb i })
    else fault

-- `dispFormat` and `fb` are those of the display driver.
unfoldable pub init_console : Display → Console → Outcome Console
unfolding console_cls
init_console display s = console_cls (record s {
  fb = display.frame_buffer;
  fb_pixels = display.fb_pixels;
  res_width = display.res_width;
  res_height = display.res_height;
  line_width = display.res_width / 8;
})

-- The copy and the fill count bytes, and the pointers they start from count pixels.
unfoldable pub scroll : Console → Outcome Console
unfolding draw_logo
scroll s =
    let from : ℕ = u32 (2 * s.res_width * 8) in
    let count : ℕ = u32 (2 * s.res_width * s.res_height) / 2 in
    let last : ℕ = u32 (2 * s.res_width * u32 (s.res_height + 4294967288)) in
    let bottom : ℕ = u32 (2 * s.res_width * 8) / 2 in
    let moved : ℕ → ℕ = λ i. if ltb i count then s.fb (i + from) else s.fb i in
    let cleared : ℕ → ℕ =
      λ i. if leb last i then (if ltb i (last + bottom) then 0 else moved i) else moved i in
    if not (leb (from + count) s.fb_pixels)
    then fault
    else if not (leb (last + bottom) s.fb_pixels)
    then fault
    else draw_logo s.console_logo (record s { fb = cleared })

-- The font of kernel/inc/font8x8.h, and what the machine gives for `1 << -1`.
module _ (font8x8_basic : ℕ → ℕ → ℕ) (one_shifted_back : ℕ) where
  -- `(row & (1 << (j - 1))) != 0`.
  abbrev pub glyph_bit : ℕ → ℕ → Bool
  glyph_bit row zero = nonzero (bit_and row one_shifted_back)
  glyph_bit row (suc j) = nonzero (bit_and row (2 ^ j))

  abbrev pub colour : ℕ → ℕ → ℕ
  colour row j = if glyph_bit row j then 0xFFFF else 0x0

  unfoldable pub glyph_row : ℕ → ℕ → ℕ → ℕ → ℕ → Console → Outcome Console
  unfolding set_pixel
  glyph_row zero row j x y s = returned s
  glyph_row (suc n) row j x y s =
      and_then (set_pixel (u32 (x + j)) y (colour row j) s)
        (λ after. glyph_row n row (j + 1) x y after)

  unfoldable pub glyph_rows : ℕ → ℕ → ℕ → ℕ → ℕ → Console → Outcome Console
  unfolding glyph_row
  glyph_rows zero c i x y s = returned s
  glyph_rows (suc n) c i x y s =
      and_then (glyph_row 8 (font8x8_basic c i) 0 x (u32 (y + i)) s)
        (λ after. glyph_rows n c (i + 1) x y after)

  -- The font has 128 characters.
  unfoldable pub draw_glyph : ℕ → ℕ → ℕ → Console → Outcome Console
  unfolding glyph_rows
  draw_glyph c x y s = if ltb c 128 then glyph_rows 8 c 0 x y s else fault

  unfoldable pub console_write_at : ℕ → ℕ → ℕ → Console → Outcome Console
  unfolding draw_glyph
  console_write_at x y c s =
      if ltb s.res_width (u32 (x + 8))
      then returned s
      else if ltb s.res_height (u32 (y + 8))
      then returned s
      else draw_glyph c x y s

  unfoldable pub console_writestr : ℕ → ℕ → Text → Console → Outcome Console
  unfolding console_write_at
  console_writestr x y [] s = returned s
  console_writestr x y (c ∷ str) s =
      and_then (console_write_at x y c s) (λ after. console_writestr (u32 (x + 8)) y str after)

  -- The step behind a character.
  unfoldable pub advance : Console → Outcome Console
  unfolding scroll
  advance s =
      let x_pos : ℕ = u32 (s.x_pos + 8) in
      if leb (u32 (s.res_width + 4294967288)) x_pos
      then scroll (record s { x_pos = 0 })
      else returned (record s { x_pos = x_pos })

  unfoldable pub console_write : ℕ → Console → Outcome Console
  unfolding draw_glyph advance scroll
  console_write c s =
      if c == 10
      then scroll (record s { x_pos = 0 })
      else and_then (draw_glyph c s.x_pos (u32 (s.res_height + 4294967288)) s) advance
