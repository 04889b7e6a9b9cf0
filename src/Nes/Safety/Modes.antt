-- ===== src/Nes/Safety/Modes.antt =====
-- On a ready machine each addressing mode returns 0 or 1 and keeps the machine ready.
use mnes_hrel.Common.{ℕ, arith}
use mnes_hrel.Nes.Machine.{Cartridge}
use mnes_hrel.Nes.Instruction.{Mode, imp, imm, zp0, zpx, zpy, rel, abs, abx, aby, ind, izx, izy}
use mnes_hrel.Nes.AddrMode.{
  next_byte, operand_word, indexed_zero_page, indexed_absolute, page_crossed, nes_imp, nes_imm,
  nes_zp0, nes_zpx, nes_zpy, nes_rel, nes_abs, nes_abx, nes_aby, nes_ind, nes_izx, nes_izy,
  run_mode,
}
use mnes_hrel.Nes.Keeps.{Keeps, Any, Extra}
use mnes_hrel.Nes.Safety.Ready.{IsPlayable, Running}
use mnes_hrel.Nes.Safety.Bus.{machine_rules}

pub zero_Extra : Extra 0
zero_Extra = omega arith

pub one_Extra : Extra 1
one_Extra = omega arith

pub page_crossed-Extra : (a hi : ℕ) → Extra (page_crossed a hi)
page_crossed-Extra a hi = ground arith

pub ruleset extra_rules = (zero_Extra, one_Extra, page_crossed-Extra)

module _ {c : Cartridge} (play : IsPlayable c) {n : ℕ} where
  next_byte-Keeps : Keeps (Running c n) Any next_byte
  unfolding next_byte
  next_byte-Keeps = search machine_rules

  operand_word-Keeps : Keeps (Running c n) Any operand_word
  unfolding operand_word
  operand_word-Keeps = search (machine_rules, next_byte-Keeps)

  indexed_zero_page-Keeps : (i : ℕ) → Keeps (Running c n) Extra (indexed_zero_page i)
  unfolding indexed_zero_page
  indexed_zero_page-Keeps i = search (machine_rules, extra_rules) depth 12

  indexed_absolute-Keeps : (i : ℕ) → Keeps (Running c n) Extra (indexed_absolute i)
  unfolding indexed_absolute
  indexed_absolute-Keeps i = search (machine_rules, extra_rules, operand_word-Keeps) depth 12

  -- Each addressing mode returns 0 or 1.
  pub run_mode-Keeps : (mode : Mode) → Keeps (Running c n) Extra (run_mode mode)
  unfolding run_mode nes_imp nes_imm nes_zp0 nes_zpx nes_zpy nes_rel nes_abs nes_abx nes_aby nes_ind
      nes_izx nes_izy
  run_mode-Keeps imp = search (machine_rules, extra_rules) depth 12
  run_mode-Keeps imm = search (machine_rules, extra_rules) depth 12
  run_mode-Keeps zp0 = search (machine_rules, extra_rules, next_byte-Keeps) depth 12
  run_mode-Keeps zpx = search (machine_rules, indexed_zero_page-Keeps) depth 12
  run_mode-Keeps zpy = search (machine_rules, indexed_zero_page-Keeps) depth 12
  run_mode-Keeps rel = search (machine_rules, extra_rules, next_byte-Keeps) depth 12
  run_mode-Keeps abs = search (machine_rules, extra_rules, operand_word-Keeps) depth 12
  run_mode-Keeps abx = search (machine_rules, indexed_absolute-Keeps) depth 12
  run_mode-Keeps aby = search (machine_rules, indexed_absolute-Keeps) depth 12
  run_mode-Keeps ind = search (machine_rules, extra_rules, operand_word-Keeps) depth 16
  run_mode-Keeps izx = search (machine_rules, extra_rules, next_byte-Keeps) depth 16
  run_mode-Keeps izy = search (machine_rules, extra_rules, next_byte-Keeps) depth 16
