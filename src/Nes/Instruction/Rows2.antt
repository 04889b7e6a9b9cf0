-- ===== src/Nes/Instruction/Rows2.antt =====
-- Opcodes 0x80 to 0xBF of `init_nes_6502` in kernel/src/nes6502.c.
use mnes_hrel.Common.{List, [], ◌∷◌}
use mnes_hrel.Nes.Instruction.Defs.{
  Instruction, ins, bcc, bcs, clv, dey, lda, ldx, ldy, nop, sta, stx, sty, tax, tay, tsx, txa, txs,
  tya, udf, imp, imm, zp0, zpx, zpy, rel, abs, abx, aby, izx, izy,
}

abbrev pub rows_80 : List Instruction
rows_80 =
    ins "UDF" nop imp 2
    ∷ ins "STA" sta izx 6
    ∷ ins "UDF" nop imp 2
    ∷ ins "UDF" udf imp 6
    ∷ ins "STY" sty zp0 3
    ∷ ins "STA" sta zp0 3
    ∷ ins "STX" stx zp0 3
    ∷ ins "UDF" udf imp 3
    ∷ ins "DEY" dey imp 2
    ∷ ins "UDF" nop imp 2
    ∷ ins "TXA" txa imp 2
    ∷ ins "UDF" udf imp 2
    ∷ ins "STY" sty abs 4
    ∷ ins "STA" sta abs 4
    ∷ ins "STX" stx abs 4
    ∷ ins "UDF" udf imp 4
    ∷ ins "BCC" bcc rel 2
    ∷ ins "STA" sta izy 6
    ∷ ins "UDF" udf imp 2
    ∷ ins "UDF" udf imp 6
    ∷ ins "STY" sty zpx 4
    ∷ ins "STA" sta zpx 4
    ∷ ins "STX" stx zpy 4
    ∷ ins "UDF" udf imp 4
    ∷ ins "TYA" tya imp 2
    ∷ ins "STA" sta aby 5
    ∷ ins "TXS" txs imp 2
    ∷ ins "UDF" udf imp 5
    ∷ ins "UDF" nop imp 5
    ∷ ins "STA" sta abx 5
    ∷ ins "UDF" udf imp 5
    ∷ ins "UDF" udf imp 5
    ∷ ins "LDY" ldy imm 2
    ∷ ins "LDA" lda izx 6
    ∷ ins "LDX" ldx imm 2
    ∷ ins "UDF" udf imp 6
    ∷ ins "LDY" ldy zp0 3
    ∷ ins "LDA" lda zp0 3
    ∷ ins "LDX" ldx zp0 3
    ∷ ins "UDF" udf imp 3
    ∷ ins "TAY" tay imp 2
    ∷ ins "LDA" lda imm 2
    ∷ ins "TAX" tax imp 2
    ∷ ins "UDF" udf imp 2
    ∷ ins "LDY" ldy abs 4
    ∷ ins "LDA" lda abs 4
    ∷ ins "LDX" ldx abs 4
    ∷ ins "UDF" udf imp 4
    ∷ ins "BCS" bcs rel 2
    ∷ ins "LDA" lda izy 5
    ∷ ins "UDF" udf imp 2
    ∷ ins "UDF" udf imp 5
    ∷ ins "LDY" ldy zpx 4
    ∷ ins "LDA" lda zpx 4
    ∷ ins "LDX" ldx zpy 4
    ∷ ins "UDF" udf imp 4
    ∷ ins "CLV" clv imp 2
    ∷ ins "LDA" lda aby 4
    ∷ ins "TSX" tsx imp 2
    ∷ ins "UDF" udf imp 4
    ∷ ins "LDY" ldy abx 4
    ∷ ins "LDA" lda abx 4
    ∷ ins "LDX" ldx aby 4
    ∷ ins "UDF" udf imp 4
    ∷ []
