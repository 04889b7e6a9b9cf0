-- ===== src/Nes/Instruction/Rows0.antt =====
-- Opcodes 0x00 to 0x3F of `init_nes_6502` in kernel/src/nes6502.c.
use mnes_hrel.Common.{List, [], ◌∷◌}
use mnes_hrel.Nes.Instruction.Defs.{
  Instruction, ins, and, asl, bit, bmi, bpl, brk, clc, jsr, nop, ora, php, plp, rol, sec, udf, imp,
  imm, zp0, zpx, rel, abs, abx, aby, izx, izy,
}

abbrev pub rows_00 : List Instruction
rows_00 =
    ins "BRK" brk imm 7
    ∷ ins "ORA" ora izx 6
    ∷ ins "UDF" udf imp 2
    ∷ ins "UDF" udf imp 8
    ∷ ins "UDF" nop imp 3
    ∷ ins "ORA" ora zp0 3
    ∷ ins "ASL" asl zp0 5
    ∷ ins "UDF" udf imp 5
    ∷ ins "PHP" php imp 3
    ∷ ins "ORA" ora imm 2
    ∷ ins "ASL" asl imp 2
    ∷ ins "UDF" udf imp 2
    ∷ ins "UDF" nop imp 4
    ∷ ins "ORA" ora abs 4
    ∷ ins "ASL" asl abs 6
    ∷ ins "UDF" udf imp 6
    ∷ ins "BPL" bpl rel 2
    ∷ ins "ORA" ora izy 5
    ∷ ins "UDF" udf imp 2
    ∷ ins "UDF" udf imp 8
    ∷ ins "UDF" nop imp 4
    ∷ ins "ORA" ora zpx 4
    ∷ ins "ASL" asl zpx 6
    ∷ ins "UDF" udf imp 6
    ∷ ins "CLC" clc imp 2
    ∷ ins "ORA" ora aby 4
    ∷ ins "UDF" nop imp 2
    ∷ ins "UDF" udf imp 7
    ∷ ins "UDF" nop imp 4
    ∷ ins "ORA" ora abx 4
    ∷ ins "ASL" asl abx 7
    ∷ ins "UDF" udf imp 7
    ∷ ins "JSR" jsr abs 6
    ∷ ins "AND" and izx 6
    ∷ ins "UDF" udf imp 2
    ∷ ins "UDF" udf imp 8
    ∷ ins "BIT" bit zp0 3
    ∷ ins "AND" and zp0 3
    ∷ ins "ROL" rol zp0 5
    ∷ ins "UDF" udf imp 5
    ∷ ins "PLP" plp imp 4
    ∷ ins "AND" and imm 2
    ∷ ins "ROL" rol imp 2
    ∷ ins "UDF" udf imp 2
    ∷ ins "BIT" bit abs 4
    ∷ ins "AND" and abs 4
    ∷ ins "ROL" rol abs 6
    ∷ ins "UDF" udf imp 6
    ∷ ins "BMI" bmi rel 2
    ∷ ins "AND" and izy 5
    ∷ ins "UDF" udf imp 2
    ∷ ins "UDF" udf imp 8
    ∷ ins "UDF" nop imp 4
    ∷ ins "AND" and zpx 4
    ∷ ins "ROL" rol zpx 6
    ∷ ins "UDF" udf imp 6
    ∷ ins "SEC" sec imp 2
    ∷ ins "AND" and aby 4
    ∷ ins "UDF" nop imp 2
    ∷ ins "UDF" udf imp 7
    ∷ ins "UDF" nop imp 4
    ∷ ins "AND" and abx 4
    ∷ ins "ROL" rol abx 7
    ∷ ins "UDF" udf imp 7
    ∷ []
