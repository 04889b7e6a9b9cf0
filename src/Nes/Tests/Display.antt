-- ===== src/Nes/Tests/Display.antt =====
-- The theorems on the disassembler at the sample machine and a small screen.
use mnes_hrel.Common.{ℕ, ◌≡◌, ◌≢◌, refl, none, Option, [], ◌∷◌, Text, String, returned, Outcome}
use mnes_hrel.Console.{Console}
use mnes_hrel.Nes.Instruction.{abs}
use mnes_hrel.Nes.AddrMode.{run_mode}
use mnes_hrel.Nes.Keeps.{Returns}
use mnes_hrel.Nes.Disassembler.{read_operand, nes_dissasemble_display}
use mnes_hrel.Nes.Disassembler.Steps.{operand_at, operand_size, read_operand-run_mode}
use mnes_hrel.Nes.Disassembler.Overrun.{nes_dissasemble_display-returned}
use mnes_hrel.Nes.Tests.Sample.{sample_cart, sample, sample_cart-IsPlayable, zeros-IsBytes}

abbrev screen : Console
screen = record {
  fb = λ i. i;
  fb_pixels = 307200;
  x_pos = 0;
  line_width = 2;
  res_width = 640;
  res_height = 480;
  console_logo = none;
}

-- A formatter that writes one character.
abbrev one_letter : String → Option ℕ → String → Text
one_letter name value label = b'A' ∷ []

abbrev ignores : ℕ → Outcome (Unit {0})
ignores offset = returned tt

nes_dissasemble_display-returned_example :
    nes_dissasemble_display (λ c i. 0xAA) 0 one_letter ignores sample screen
    ≢ returned (sample, screen)
nes_dissasemble_display-returned_example =
    nes_dissasemble_display-returned (λ c i. 0xAA) 0 one_letter ignores sample screen
      (sample, screen)

read_operand-run_mode_example :
    Returns
      (λ r after.
        (after ≡ sample)
        × (r.0 ≡ operand_at sample_cart sample.cpu_ram sample.pc (operand_size abs))
        × Returns (λ _ m'. m'.pc ≡ r.1) (run_mode abs sample))
      (read_operand abs sample.pc sample)
read_operand-run_mode_example =
    read_operand-run_mode sample_cart-IsPlayable sample refl zeros-IsBytes abs
