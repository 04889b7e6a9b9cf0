-- ===== src/Nes/Ops.antt =====
-- The call through `operation` of an entry of the instruction table of kernel/src/nes6502.c.
pub mod Arith
pub mod Logic
pub mod Branch
pub mod Stack
pub mod Transfer
use mnes_hrel.Common.{ℕ}
use mnes_hrel.Nes.Machine.{Action}
use mnes_hrel.Nes.Instruction.{
  Op, adc, and, asl, bcc, bcs, beq, bit, bmi, bne, bpl, brk, bvc, bvs, clc, cld, cli, clv, cmp, cpx,
  cpy, dec, dex, dey, eor, inc, inx, iny, jmp, jsr, lda, ldx, ldy, lsr, nop, ora, pha, php, pla,
  plp, rol, ror, rti, rts, sbc, sec, sed, sei, sta, stx, sty, tax, tay, tsx, txa, txs, tya, udf,
}
use Arith.{
  nes_adc, nes_sbc, nes_cmp, nes_cpx, nes_cpy, nes_dec, nes_inc, nes_dex, nes_dey, nes_inx, nes_iny,
}
use Logic.{nes_and, nes_ora, nes_eor, nes_bit, nes_asl, nes_lsr, nes_rol, nes_ror}
use Branch.{nes_bcc, nes_bcs, nes_beq, nes_bmi, nes_bne, nes_bpl, nes_bvc, nes_bvs, nes_jmp}
use Stack.{nes_pha, nes_php, nes_pla, nes_plp, nes_jsr, nes_rts, nes_rti, nes_brk}
use Transfer.{
  nes_lda, nes_ldx, nes_ldy, nes_sta, nes_stx, nes_sty, nes_tax, nes_tay, nes_tsx, nes_txa, nes_txs,
  nes_tya, nes_clc, nes_cld, nes_cli, nes_clv, nes_sec, nes_sed, nes_sei, nes_nop, nes_udf,
}

unfoldable pub run_operation : Op → Action ℕ
run_operation adc = nes_adc
run_operation and = nes_and
run_operation asl = nes_asl
run_operation bcc = nes_bcc
run_operation bcs = nes_bcs
run_operation beq = nes_beq
run_operation bit = nes_bit
run_operation bmi = nes_bmi
run_operation bne = nes_bne
run_operation bpl = nes_bpl
run_operation brk = nes_brk
run_operation bvc = nes_bvc
run_operation bvs = nes_bvs
run_operation clc = nes_clc
run_operation cld = nes_cld
run_operation cli = nes_cli
run_operation clv = nes_clv
run_operation cmp = nes_cmp
run_operation cpx = nes_cpx
run_operation cpy = nes_cpy
run_operation dec = nes_dec
run_operation dex = nes_dex
run_operation dey = nes_dey
run_operation eor = nes_eor
run_operation inc = nes_inc
run_operation inx = nes_inx
run_operation iny = nes_iny
run_operation jmp = nes_jmp
run_operation jsr = nes_jsr
run_operation lda = nes_lda
run_operation ldx = nes_ldx
run_operation ldy = nes_ldy
run_operation lsr = nes_lsr
run_operation nop = nes_nop
run_operation ora = nes_ora
run_operation pha = nes_pha
run_operation php = nes_php
run_operation pla = nes_pla
run_operation plp = nes_plp
run_operation rol = nes_rol
run_operation ror = nes_ror
run_operation rti = nes_rti
run_operation rts = nes_rts
run_operation sbc = nes_sbc
run_operation sec = nes_sec
run_operation sed = nes_sed
run_operation sei = nes_sei
run_operation sta = nes_sta
run_operation stx = nes_stx
run_operation sty = nes_sty
run_operation tax = nes_tax
run_operation tay = nes_tay
run_operation tsx = nes_tsx
run_operation txa = nes_txa
run_operation txs = nes_txs
run_operation tya = nes_tya
run_operation udf = nes_udf
