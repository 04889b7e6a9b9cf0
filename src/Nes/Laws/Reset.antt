-- ===== src/Nes/Laws/Reset.antt =====
-- `nes_reset`: whatever the registers held, the machine is ready and starts at the reset vector.
use mnes_hrel.Common.{ℕ, ◌+◌, ◌<◌, ◌≡◌, ◌∙◌, some, arith, u16}
use mnes_hrel.Nes.Machine.{
  Cartridge, cart_at, Machine, ◌>>=◌, set_a, set_x, set_y, set_p, set_sp, set_pc, set_fetched,
  set_addr_abs, set_addr_rel, set_cycles,
}
use mnes_hrel.Nes.Ops.Stack.{read_vector}
use mnes_hrel.Nes.Ops.Stack.Interrupts.{word_at, read_vector_lem}
use mnes_hrel.Nes.Clock.{nes_reset}
use mnes_hrel.Nes.Keeps.{bind-some}
use mnes_hrel.Nes.Safety.Ready.{IsBytes, IsPlayable, IsReady}
use mnes_hrel.Nes.Safety.Bus.{byte_at-lt}

-- The machine after a reset.
abbrev pub reset : Cartridge → Machine → Machine
reset c m = record m {
  a = 0;
  x = 0;
  y = 0;
  p = 0x20;
  sp = 0xFD;
  pc = word_at c m 0xFFFC;
  addr_abs = 0;
  addr_rel = 0;
  fetched = 0;
  cycles = 8;
}

module _ {c : Cartridge} (play : IsPlayable c) (m : Machine) (cart : m.loaded_cart ≡ cart_at c)
    (ram : IsBytes m.cpu_ram) where
  word_at-lt : (a : ℕ) → word_at c m a < 65536
  word_at-lt a =
      omega
        (arith, byte_at-lt play m.cpu_ram (u16 (a + 1)) ram, byte_at-lt play m.cpu_ram (u16 a) ram)

  nes_reset_lem : nes_reset m ≡ some (tt, reset c m)
  unfolding nes_reset set_a set_x set_y set_p set_sp set_pc set_fetched set_addr_abs set_addr_rel
      set_cycles ◌>>=◌
  nes_reset_lem =
      bind-some (read_vector 0xFFFC) _ (record m { addr_abs = 0xFFFC })
        (read_vector_lem play 0xFFFC (record m { addr_abs = 0xFFFC }) cart ram)
      ∙ ground (arith, word_at-lt 0xFFFC)

  -- A reset of a machine that has a playable cartridge, with any bytes in RAM and the opcode, and
  -- anything at all in the registers: it returns the machine that starts at the reset vector in 8
  -- cycles, and that machine is ready.
  pub nes_reset-IsReady :
      m.opcode < 256 → (nes_reset m ≡ some (tt, reset c m)) × IsReady c (reset c m)
  nes_reset-IsReady byte =
      (nes_reset_lem, let small : word_at c m 0xFFFC < 65536 = word_at-lt 0xFFFC in ground arith)
