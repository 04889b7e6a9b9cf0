-- ===== src/Console/Tests.antt =====
-- A screen of 16 by 16 pixels, and the theorems on the console at it.
use mnes_hrel.Common.{ℕ, refl, none, arith}
use mnes_hrel.Console.{Console, console_write_at}
use mnes_hrel.Console.Cell.{IsScreen, Draws, console_write_at-Draws}

abbrev stripes : ℕ → ℕ → ℕ
stripes c i = 0xAA

abbrev screen : Console
screen = record {
  fb = λ i. i;
  fb_pixels = 256;
  x_pos = 0;
  line_width = 2;
  res_width = 16;
  res_height = 16;
  console_logo = none;
}

screen-IsScreen : IsScreen screen
screen-IsScreen = record {
  whole = refl;
  small = omega arith;
  width = omega arith;
  height = omega arith;
}

console_write_at-Draws_example :
    Draws stripes 0 65 8 8 screen (console_write_at stripes 0 8 8 65 screen)
console_write_at-Draws_example =
    console_write_at-Draws stripes 0 8 8 65 screen screen-IsScreen (omega arith) (omega arith)
      (omega arith)
