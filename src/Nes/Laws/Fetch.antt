-- ===== src/Nes/Laws/Fetch.antt =====
-- The operand that `nes_fetch` brings, and the status after `set_zn`.
use mnes_hrel.Common.{
  ℕ, ◌<◌, ◌≡◌, ◌∙◌, false, some, arith, bit_and, get_elem?, ◌==◌, nonzero, if◌then◌else◌,
}
use mnes_hrel.Nes.Machine.{Cartridge, Machine, pure, ◌>>=◌, set_fetched}
use mnes_hrel.Nes.Bus.MemoryMap.{byte_at, nes_cpu_read-byte_at}
use mnes_hrel.Nes.Registers.{flag_z, flag_n}
use mnes_hrel.Nes.Registers.Flags.{status_after, nes_setflag-status}
use mnes_hrel.Nes.Instruction.{Instruction, nes_instructions}
use mnes_hrel.Nes.AddrMode.{current, entry, is_imp, nes_fetch}
use mnes_hrel.Nes.Ops.Arith.{set_zn}
use mnes_hrel.Nes.Keeps.{bind-some}
use mnes_hrel.Nes.Safety.Ready.{IsPlayable, IsReady}
use mnes_hrel.Nes.Safety.Bus.{byte_at-lt}

-- The operand of the instruction `i`: in implied mode what the mode fetched, and the byte at the
-- effective address otherwise.
abbrev pub operand : Cartridge → Instruction → Machine → ℕ
operand c i m = if is_imp i.addr_mode then m.fetched else byte_at c m.cpu_ram m.addr_abs

-- The status after the zero flag and then the negative flag were written for the value `v`.
abbrev pub status_zn : ℕ → ℕ → ℕ
status_zn v p = status_after flag_n (nonzero (bit_and v 0x80)) (status_after flag_z (v == 0) p)

pub current_lem :
    (m : Machine) (i : Instruction)
    → get_elem? nes_instructions m.opcode ≡ some i
    → current m ≡ some (i, m)
unfolding current entry ◌>>=◌
current_lem m i e = rw e

module _ {c : Cartridge} (play : IsPlayable c) (i : Instruction) (m : Machine) (h : IsReady c m)
    (at : get_elem? nes_instructions m.opcode ≡ some i) where
  pub operand-lt : operand c i m < 256
  operand-lt = ground (arith, byte_at-lt play m.cpu_ram m.addr_abs, h.fetched)

  pub nes_fetch_lem : nes_fetch m ≡ some (operand c i m, record m { fetched = operand c i m })
  unfolding nes_fetch set_fetched ◌>>=◌
  nes_fetch_lem =
      bind-some current _ m (current_lem m i at)
      ∙ ground (
        arith,
        nes_cpu_read-byte_at play m false m.addr_abs h.cart,
        byte_at-lt play m.cpu_ram m.addr_abs,
      )

pub set_zn_lem : (v : ℕ) (m : Machine) → set_zn v v m ≡ some (tt, record m { p = status_zn v m.p })
unfolding set_zn
set_zn_lem v m =
    bind-some _ _ m (nes_setflag-status flag_z (v == 0) m)
    ∙ nes_setflag-status flag_n (nonzero (bit_and v 0x80))
        (record m { p = status_after flag_z (v == 0) m.p })

-- The same at the end of an operation that reports `r`.
pub set_zn_then :
    (v r : ℕ) (m : Machine)
    → (set_zn v v >>= λ _. pure r) m ≡ some (r, record m { p = status_zn v m.p })
unfolding ◌>>=◌
set_zn_then v r m = bind-some (set_zn v v) (λ _. pure r) m (set_zn_lem v m)
