-- ===== src/Nes/Instruction.antt =====
-- The INSTRUCTION structure of kernel/inc/nes6502.h, and the table that `init_nes_6502` fills.
mod Defs
mod Rows0
mod Rows1
mod Rows2
mod Rows3
use Rows0.{rows_00}
use Rows1.{rows_40}
use Rows2.{rows_80}
use Rows3.{rows_C0}
use mnes_hrel.Common.{ℕ, ◌+◌, List, [], ◌∷◌, ◌++◌, take, u16}
use Defs.{Instruction}
pub use Defs.{
  Op, Mode, Instruction, adc, and, asl, bcc, bcs, beq, bit, bmi, bne, bpl, brk, bvc, bvs, clc, cld,
  cli, clv, cmp, cpx, cpy, dec, dex, dey, eor, inc, inx, iny, jmp, jsr, lda, ldx, ldy, lsr, nop,
  ora, pha, php, pla, plp, rol, ror, rti, rts, sbc, sec, sed, sei, sta, stx, sty, tax, tay, tsx,
  txa, txs, tya, udf, imp, imm, zp0, zpx, zpy, rel, abs, abx, aby, ind, izx, izy,
}

-- `nes_instructions` as filled so far, with the index `nes_temp` of the next entry.
pub record Table : Type 0 where
  pub entries : List Instruction
  pub next : ℕ

unfoldable pub nes_add_ins : Instruction → Table → Table
nes_add_ins i t = record { entries = t.entries ++ (i ∷ []); next = u16 (t.next + 1) }

-- The calls of `nes_add_ins` in their order.
unfoldable pub add_all : List Instruction → Table → Table
unfolding nes_add_ins
add_all [] t = t
add_all (i ∷ rest) t = add_all rest (nes_add_ins i t)

-- The table that the first call of `init_nes_6502` leaves.
unfoldable pub init_nes_6502 : Table
unfolding add_all
init_nes_6502 =
    add_all rows_C0
      (add_all rows_80 (add_all rows_40 (add_all rows_00 (record { entries = []; next = 0 }))))

-- The global `nes_instructions` from then on, as far as its block of 0xFF entries goes: the entry of
-- opcode 0xFF was written behind it.
unfoldable pub nes_instructions : List Instruction
unfolding init_nes_6502
nes_instructions = take 0xFF init_nes_6502.entries
