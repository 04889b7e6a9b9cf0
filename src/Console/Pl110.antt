-- ===== src/Console/Pl110.antt =====
-- kernel/src/pl110.c: the display, and the frame buffer and format that it gives to the console.
use mnes_hrel.Common.{ℕ, ◌*◌, u32, bit_or, ltb, if◌then◌else◌}

-- `enum ColorMode`.
pub data ColorMode : Type 0 where
  pallete : ColorMode
  color16 : ColorMode
  color32 : ColorMode

-- `struct Registers`.
pub record Registers : Type 0 where
  pub tim0 : ℕ
  pub tim1 : ℕ
  pub tim2 : ℕ
  pub tim3 : ℕ
  pub upbase : ℕ
  pub lpbase : ℕ
  pub control : ℕ
  pub misc : ℕ
  pub ris : ℕ
  pub mis : ℕ

-- The globals: where the registers are, and what they and the system control register hold; the block
-- `frame_buffer` of `fb_pixels` pixels at the address `fb_at`; and the `displayFormat` in use.
pub record Display : Type 0 where
  pub registers_at : ℕ
  pub registers : Registers
  pub clcdctrl : ℕ
  pub fb_at : ℕ
  pub frame_buffer : ℕ → ℕ
  pub fb_pixels : ℕ
  pub res_width : ℕ
  pub res_height : ℕ
  pub color_mode : ColorMode

-- 640 by 480 pixels of 16 bits, all 0; `at` is the address that `malloc` gives, and `fresh` what it
-- finds in the block.
unfoldable pub init_pl110 : ℕ → ℕ → (ℕ → ℕ) → Display → Display
init_pl110 base_addr at fresh s = record {
  registers_at = base_addr;
  registers = record s.registers {
    tim0 = 0x3f1f3f9c;
    tim1 = 0x080b61df;
    upbase = u32 at;
    control = 0x1829;
  };
  clcdctrl = bit_or s.clcdctrl 4;
  fb_at = at;
  frame_buffer = λ i. if ltb i (640 * 480) then 0 else fresh i;
  fb_pixels = 640 * 480;
  res_width = 640;
  res_height = 480;
  color_mode = color16;
}
