-- ===== src/Nes/Disassembler.antt =====
-- `nes_dissasemble_display` of kernel/src/nes6502.c: ten instructions from PC on, on the console.
pub mod Steps
pub mod Overrun
use Prim.Native.String.{len}
use mnes_hrel.Common.{
  ℕ, zero, suc, ◌+◌, ◌*◌, ◌^◌, bit_or, true, Option, none, some, ltb, if◌then◌else◌, u16, get_elem?,
  Outcome, returned, fault, and_then, Text, length, String, ◌<<◌,
}
use mnes_hrel.Nes.Machine.{Machine, Action, pure, ◌>>=◌}
use mnes_hrel.Nes.Bus.{nes_cpu_read}
use mnes_hrel.Nes.Instruction.{
  Mode, Instruction, nes_instructions, imp, imm, zp0, zpx, zpy, rel, abs, abx, aby, ind, izx, izy,
}
use mnes_hrel.Nes.AddrMode.{entry}
use mnes_hrel.Console.{Console, console_writestr}

-- What the line says behind the operand. Every entry of the table has one of the twelve modes.
unfoldable pub label : Mode → String
label imp = "{IMP}"
label imm = "{IMM}"
label zp0 = "{ZP0}"
label zpx = "{ZPX}"
label zpy = "{ZPY}"
label rel = "{REL}"
label abs = "{REL}"
label abx = "X {ABX}"
label aby = "Y {ABY}"
label ind = "{IND}"
label izx = "X {IZX}"
label izy = "Y {IZY}"

-- `value`, and the address behind it.
unfoldable pub one_byte : ℕ → Action (Option ℕ × ℕ)
unfolding ◌>>=◌
one_byte addr = do value ← nes_cpu_read addr true; pure (some value, u16 (addr + 1))

-- `valuehi << 8 | valuelo`, and the address behind both.
unfoldable pub two_bytes : ℕ → Action (Option ℕ × ℕ)
unfolding ◌>>=◌
two_bytes addr = do
  valuelo ← nes_cpu_read addr true
  valuehi ← nes_cpu_read (u16 (addr + 1)) true
  pure (some (bit_or (valuehi << 8) valuelo), u16 (u16 (addr + 1) + 1))

-- The operand of an instruction, by the cases of its mode.
unfoldable pub read_operand : Mode → ℕ → Action (Option ℕ × ℕ)
unfolding one_byte two_bytes
read_operand imp addr = pure (none, addr)
read_operand imm addr = one_byte addr
read_operand zp0 addr = one_byte addr
read_operand zpx addr = one_byte addr
read_operand zpy addr = one_byte addr
read_operand rel addr = one_byte addr
read_operand abs addr = two_bytes addr
read_operand abx addr = two_bytes addr
read_operand aby addr = two_bytes addr
read_operand ind addr = two_bytes addr
read_operand izx addr = one_byte addr
read_operand izy addr = one_byte addr

-- A call on the machine, and what follows it.
unfoldable pub ran : {A B : Type 0} → Option (A × Machine) → (A → Machine → Outcome B) → Outcome B
ran none next = fault
ran (some (r, m)) next = next r m

-- `sprintf` of the C library: the text for a name, an operand and a label. `free` is its answer to a
-- pointer so many bytes behind the start of the block.
module _ (font8x8_basic : ℕ → ℕ → ℕ) (one_shifted_back : ℕ)
    (sprintf : String → Option ℕ → String → Text) (free : ℕ → Outcome (Unit {0})) where
  -- The rounds of the loop, where `disstr` is `offset` bytes behind the start of its block of 256: the
  -- block is cleared, the name copied and stepped over, and the line written behind it.
  unfoldable pub lines : ℕ → ℕ → ℕ → ℕ → Machine → Console → Outcome (ℕ × Machine × Console)
  unfolding ran entry read_operand label console_writestr
  lines zero offset addr y m s = returned (offset, m, s)
  lines (suc n) offset addr y m s = ran (nes_cpu_read addr true m) (λ opcode m1.
      if ltb 256 (offset + 256)
      then fault
      else ran (entry (get_elem? nes_instructions opcode) m1) (λ i m2.
        let disstr = offset + len i.name + 1 in
        ran (read_operand i.addr_mode (u16 (addr + 1)) m2) (λ (value, next) m3.
          let text = sprintf i.name value (label i.addr_mode) in
          if ltb 256 (disstr + length text + 1)
          then fault
          else and_then (console_writestr font8x8_basic one_shifted_back 288 y text s)
              (λ after. lines n disstr next (y + 12) m3 after))))

  unfoldable pub nes_dissasemble_display : Machine → Console → Outcome (Machine × Console)
  unfolding lines
  nes_dissasemble_display m s =
      and_then (lines 10 0 m.pc 64 m s)
        (λ (offset, after, shown). and_then (free offset) (λ _. returned (after, shown)))
