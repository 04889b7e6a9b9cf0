-- ===== src/Nes/Instruction/Defs.antt =====
-- Function pointers of the table as tags, and one entry of the table.
use mnes_hrel.Common.{ℕ, String}

-- Which `nes_XXX` operation a table entry points to.
pub data Op : Type 0 where
  adc and asl bcc bcs beq bit bmi bne bpl brk bvc : Op
  bvs clc cld cli clv cmp cpx cpy dec dex dey eor : Op
  inc inx iny jmp jsr lda ldx ldy lsr nop ora pha : Op
  php pla plp rol ror rti rts sbc sec sed sei sta : Op
  stx sty tax tay tsx txa txs tya udf : Op

-- Which addressing mode a table entry points to.
pub data Mode : Type 0 where
  imp imm zp0 zpx zpy rel abs abx aby ind izx izy : Mode

pub record Instruction : Type 0 where
  pub name : String
  pub operation : Op
  pub addr_mode : Mode
  pub cycles : ℕ

-- The arguments of one call of `nes_add_ins`.
abbrev pub ins : String → Op → Mode → ℕ → Instruction
ins name op addrmode cycles = record {
  name = name;
  operation = op;
  addr_mode = addrmode;
  cycles = cycles;
}
