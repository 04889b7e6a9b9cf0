-- ===== src/Nes/Instruction/Rows3.antt =====
-- Opcodes 0xC0 to 0xFF of `init_nes_6502` in kernel/src/nes6502.c.
use mnes_hrel.Common.{List, [], ◌∷◌}
use mnes_hrel.Nes.Instruction.Defs.{
  Instruction, ins, beq, bne, cld, cmp, cpx, cpy, dec, dex, inc, inx, iny, nop, sbc, sed, udf, imp,
  imm, zp0, zpx, rel, abs, abx, aby, izx, izy,
}

abbrev pub rows_C0 : List Instruction
rows_C0 =
    ins "CPY" cpy imm 2
    ∷ ins "CMP" cmp izx 6
    ∷ ins "UDF" nop imp 2
    ∷ ins "UDF" udf imp 8
    ∷ ins "CPY" cpy zp0 3
    ∷ ins "CMP" cmp zp0 3
    ∷ ins "DEC" dec zp0 5
    ∷ ins "UDF" udf imp 5
    ∷ ins "INY" iny imp 2
    ∷ ins "CMP" cmp imm 2
    ∷ ins "DEX" dex imp 2
    ∷ ins "UDF" udf imp 2
    ∷ ins "CPY" cpy abs 4
    ∷ ins "CMP" cmp abs 4
    ∷ ins "DEC" dec abs 6
    ∷ ins "UDF" udf imp 6
    ∷ ins "BNE" bne rel 2
    ∷ ins "CMP" cmp izy 5
    ∷ ins "UDF" udf imp 2
    ∷ ins "UDF" udf imp 8
    ∷ ins "UDF" nop imp 4
    ∷ ins "CMP" cmp zpx 4
    ∷ ins "DEC" dec zpx 6
    ∷ ins "UDF" udf imp 6
    ∷ ins "CLD" cld imp 2
    ∷ ins "CMP" cmp aby 4
    ∷ ins "NOP" nop imp 2
    ∷ ins "UDF" udf imp 7
    ∷ ins "UDF" nop imp 4
    ∷ ins "CMP" cmp abx 4
    ∷ ins "DEC" dec abx 7
    ∷ ins "UDF" udf imp 7
    ∷ ins "CPX" cpx imm 2
    ∷ ins "SBC" sbc izx 6
    ∷ ins "UDF" nop imp 2
    ∷ ins "UDF" udf imp 8
    ∷ ins "CPX" cpx zp0 3
    ∷ ins "SBC" sbc zp0 3
    ∷ ins "INC" inc zp0 5
    ∷ ins "UDF" udf imp 5
    ∷ ins "INX" inx imp 2
    ∷ ins "SBC" sbc imm 2
    ∷ ins "NOP" nop imp 2
    ∷ ins "UDF" sbc imp 2
    ∷ ins "CPX" cpx abs 4
    ∷ ins "SBC" sbc abs 4
    ∷ ins "INC" inc abs 6
    ∷ ins "UDF" udf imp 6
    ∷ ins "BEQ" beq rel 2
    ∷ ins "SBC" sbc izy 5
    ∷ ins "UDF" udf imp 2
    ∷ ins "UDF" udf imp 8
    ∷ ins "UDF" nop imp 4
    ∷ ins "SBC" sbc zpx 4
    ∷ ins "INC" inc zpx 6
    ∷ ins "UDF" udf imp 6
    ∷ ins "SED" sed imp 2
    ∷ ins "SBC" sbc aby 4
    ∷ ins "NOP" nop imp 2
    ∷ ins "UDF" udf imp 7
    ∷ ins "UDF" nop imp 4
    ∷ ins "SBC" sbc abx 4
    ∷ ins "INC" inc abx 7
    ∷ ins "UDF" udf imp 7
    ∷ []
