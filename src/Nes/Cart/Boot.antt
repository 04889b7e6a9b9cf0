-- ===== src/Nes/Cart/Boot.antt =====
-- The start of the console by `kmain`: the load of a cartridge, the reset and the clock, and what
-- the errors of the load come to.
use mnes_hrel.Common.{ℕ, ◌≤◌, ◌≡◌}
use mnes_hrel.Nes.Machine.{Machine}
use mnes_hrel.Nes.Safety.Ready.{IsBytes}
use mnes_hrel.Nes.Cart.{mapper_of}
use mnes_hrel.Nes.Cart.Image.{IsImage}

-- A file that the kernel can play: an image of mapper 0 with a program bank.
pub record IsRom (null_text : ℕ → ℕ) (size : ℕ) (bytes : ℕ → ℕ) : Type 0 where
  pub image : IsImage null_text size bytes
  pub range : IsBytes bytes
  pub known : mapper_of bytes ≡ 0
  pub some_bank : 1 ≤ bytes 4
