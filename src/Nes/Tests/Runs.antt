-- ===== src/Nes/Tests/Runs.antt =====
-- Runs of the emulator on concrete machines.
use mnes_hrel.Common.{ℕ, ◌≡◌, refl, Option, none, some}
use mnes_hrel.Nes.Machine.{
  Machine, ◌>>=◌, set_a, set_x, set_y, set_p, set_sp, set_pc, set_fetched, set_addr_abs,
  set_addr_rel, set_opcode, set_cycles,
}
use mnes_hrel.Nes.Bus.{nes_cpu_read, nes_cpu_write}
use mnes_hrel.Nes.AddrMode.{
  entry, current, nes_fetch, next_byte, nes_imp, nes_imm, nes_zp0, indexed_zero_page, nes_zpx,
  nes_zpy, nes_rel, operand_word, nes_abs, indexed_absolute, nes_abx, nes_aby, nes_ind, nes_izx,
  nes_izy, run_mode,
}
use mnes_hrel.Nes.Ops.{run_operation}
use mnes_hrel.Nes.Ops.Arith.{
  set_zn, nes_adc, nes_sbc, compare_with, nes_cmp, nes_cpx, nes_cpy, nes_dec, nes_inc, set_nz,
  nes_dex, nes_dey, nes_inx, nes_iny,
}
use mnes_hrel.Nes.Ops.Logic.{
  nes_and, nes_ora, nes_eor, nes_bit, store_shifted, nes_asl, nes_lsr, nes_rol, nes_ror,
}
use mnes_hrel.Nes.Ops.Branch.{
  take_branch, branch_if, nes_bcc, nes_bcs, nes_beq, nes_bmi, nes_bne, nes_bpl, nes_bvc, nes_bvs,
  nes_jmp,
}
use mnes_hrel.Nes.Ops.Stack.{
  push, pull, push_pc, pull_pc, nes_pha, nes_php, nes_pla, nes_plp, nes_jsr, nes_rts, nes_rti,
  read_vector, nes_brk, interrupt, nes_irq, nes_nmirq,
}
use mnes_hrel.Nes.Ops.Transfer.{
  nes_lda, nes_ldx, nes_ldy, nes_sta, nes_stx, nes_sty, nes_tax, nes_tay, nes_tsx, nes_txa, nes_txs,
  nes_tya, nes_clc, nes_cld, nes_cli, nes_clv, nes_sec, nes_sed, nes_sei, nes_nop, nes_udf,
}
use mnes_hrel.Nes.Clock.{execute, read_opcode, next_instruction, nes_clock, clocks, nes_reset}
use mnes_hrel.Nes.Registers.{nes_setflag, nes_getflag}
use mnes_hrel.Nes.Instruction.{nes_instructions}
use mnes_hrel.Nes.Tests.Sample.{sample}

-- Unfolding this opens the whole emulator.
everything : Unit {0}
unfolding ◌>>=◌ set_a set_x set_y set_p set_sp set_pc set_fetched set_addr_abs set_addr_rel
    set_opcode set_cycles nes_cpu_read nes_cpu_write nes_instructions entry current nes_fetch
    next_byte nes_imp nes_imm nes_zp0 indexed_zero_page nes_zpx nes_zpy nes_rel operand_word nes_abs
    indexed_absolute nes_abx nes_aby nes_ind nes_izx nes_izy run_mode run_operation set_zn nes_adc
    nes_sbc compare_with nes_cmp nes_cpx nes_cpy nes_dec nes_inc set_nz nes_dex nes_dey nes_inx
    nes_iny nes_and nes_ora nes_eor nes_bit store_shifted nes_asl nes_lsr nes_rol nes_ror
    take_branch branch_if nes_bcc nes_bcs nes_beq nes_bmi nes_bne nes_bpl nes_bvc nes_bvs nes_jmp
    push pull push_pc pull_pc nes_pha nes_php nes_pla nes_plp nes_jsr nes_rts nes_rti read_vector
    nes_brk interrupt nes_irq nes_nmirq nes_lda nes_ldx nes_ldy nes_sta nes_stx nes_sty nes_tax
    nes_tay nes_tsx nes_txa nes_txs nes_tya nes_clc nes_cld nes_cli nes_clv nes_sec nes_sed nes_sei
    nes_nop nes_udf execute read_opcode next_instruction nes_clock clocks nes_reset nes_setflag
    nes_getflag
everything = tt

-- Accumulator, program counter, stack pointer, status, and the byte at $10.
abbrev shown : Option (Unit {0} × Machine) → Option (ℕ × ℕ × ℕ × ℕ × ℕ)
shown none = none
shown (some (r, m)) = some (m.a, m.pc, m.sp, m.p, m.cpu_ram 0x10)

load_run : shown (clocks 2 sample) ≡ some (0x42, 0x8002, 0xFD, 0x20, 0)
unfolding everything
load_run = refl

store_run : shown (clocks 5 sample) ≡ some (0x42, 0x8004, 0xFD, 0x20, 0x42)
unfolding everything
store_run = refl

call_run : shown (clocks 11 sample) ≡ some (0x42, 0x8010, 0xFB, 0x20, 0x42)
unfolding everything
call_run = refl

return_run : shown (clocks 17 sample) ≡ some (0x42, 0x8007, 0xFD, 0x20, 0x42)
unfolding everything
return_run = refl
