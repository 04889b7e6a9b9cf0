-- ===== src/Nes/Instruction/Rows1.antt =====
-- Opcodes 0x40 to 0x7F of `init_nes_6502` in kernel/src/nes6502.c.
use mnes_hrel.Common.{List, [], ◌∷◌}
use mnes_hrel.Nes.Instruction.Defs.{
  Instruction, ins, adc, bvc, bvs, cli, eor, jmp, lsr, nop, pha, pla, ror, rti, rts, sei, udf, imp,
  imm, zp0, zpx, rel, abs, abx, aby, ind, izx, izy,
}

abbrev pub rows_40 : List Instruction
rows_40 =
    ins "RTI" rti imp 6
    ∷ ins "EOR" eor izx 6
    ∷ ins "UDF" udf imp 2
    ∷ ins "UDF" udf imp 8
    ∷ ins "UDF" nop imp 3
    ∷ ins "EOR" eor zp0 3
    ∷ ins "LSR" lsr zp0 5
    ∷ ins "UDF" udf imp 5
    ∷ ins "PHA" pha imp 3
    ∷ ins "EOR" eor imm 2
    ∷ ins "LSR" lsr imp 2
    ∷ ins "UDF" udf imp 2
    ∷ ins "JMP" jmp abs 3
    ∷ ins "EOR" eor abs 4
    ∷ ins "LSR" lsr abs 6
    ∷ ins "UDF" udf imp 6
    ∷ ins "BVC" bvc rel 2
    ∷ ins "EOR" eor izy 5
    ∷ ins "UDF" udf imp 2
    ∷ ins "UDF" udf imp 8
    ∷ ins "UDF" nop imp 4
    ∷ ins "EOR" eor zpx 4
    ∷ ins "LSR" lsr zpx 6
    ∷ ins "UDF" udf imp 6
    ∷ ins "CLI" cli imp 2
    ∷ ins "EOR" eor aby 4
    ∷ ins "UDF" nop imp 2
    ∷ ins "UDF" udf imp 7
    ∷ ins "UDF" nop imp 4
    ∷ ins "EOR" eor abx 4
    ∷ ins "LSR" lsr abx 7
    ∷ ins "UDF" udf imp 7
    ∷ ins "RTS" rts imp 6
    ∷ ins "ADC" adc izx 6
    ∷ ins "UDF" udf imp 2
    ∷ ins "UDF" udf imp 8
    ∷ ins "UDF" nop imp 3
    ∷ ins "ADC" adc zp0 3
    ∷ ins "ROR" ror zp0 5
    ∷ ins "UDF" udf imp 5
    ∷ ins "PLA" pla imp 4
    ∷ ins "ADC" adc imm 2
    ∷ ins "ROR" ror imp 2
    ∷ ins "UDF" udf imp 2
    ∷ ins "JMP" jmp ind 5
    ∷ ins "ADC" adc abs 4
    ∷ ins "ROR" ror abs 6
    ∷ ins "UDF" udf imp 6
    ∷ ins "BVS" bvs rel 2
    ∷ ins "ADC" adc izy 5
    ∷ ins "UDF" udf imp 2
    ∷ ins "UDF" udf imp 8
    ∷ ins "UDF" nop imp 4
    ∷ ins "ADC" adc zpx 4
    ∷ ins "ROR" ror zpx 6
    ∷ ins "UDF" udf imp 6
    ∷ ins "SEI" sei imp 2
    ∷ ins "ADC" adc aby 4
    ∷ ins "UDF" nop imp 2
    ∷ ins "UDF" udf imp 7
    ∷ ins "UDF" nop imp 4
    ∷ ins "ADC" adc abx 4
    ∷ ins "ROR" ror abx 7
    ∷ ins "UDF" udf imp 7
    ∷ []
