-- ===== src/Nes/AddrMode.antt =====
-- `nes_fetch` and the twelve addressing modes of kernel/src/nes6502.c. A mode leaves the
-- effective address in `addr_abs` or `addr_rel`, and returns 1 if it may cost a cycle more.
use mnes_hrel.Common.{
  ℕ, ◌+◌, ◌*◌, Bool, true, false, Option, none, some, bit_and, bit_or, ◌<<◌, ◌==◌, nonzero,
  if◌then◌else◌, u16, get_elem?,
}
use mnes_hrel.Nes.Machine.{
  Action, pure, fault, get, ◌>>=◌, ◌>>◌, set_pc, set_fetched, set_addr_abs, set_addr_rel,
}
use mnes_hrel.Nes.Bus.{nes_cpu_read}
use mnes_hrel.Nes.Instruction.{
  Mode, Instruction, nes_instructions, imp, imm, zp0, zpx, zpy, rel, abs, abx, aby, ind, izx, izy,
}

-- An entry of the table; past its end is a fault.
unfoldable pub entry : Option Instruction → Action Instruction
entry none = fault
entry (some i) = pure i

-- `nes_instructions[nes_opcode]`.
unfoldable pub current : Action Instruction
current = do m ← get; entry (get_elem? nes_instructions m.opcode)

-- `addr_mode == &nes_IMP`.
abbrev pub is_imp : Mode → Bool
is_imp imp = true
is_imp _ = false

unfoldable pub nes_fetch : Action ℕ
nes_fetch = do
  i ← current
  m ← get
  if is_imp i.addr_mode then pure tt else (do v ← nes_cpu_read m.addr_abs false; set_fetched v)
  m ← get
  pure m.fetched

-- `nes_cpu_read(PC, false); PC++`.
unfoldable pub next_byte : Action ℕ
next_byte = do m ← get; v ← nes_cpu_read m.pc false; set_pc (m.pc + 1); pure v

unfoldable pub nes_imp : Action ℕ
nes_imp = do m ← get; set_fetched m.a; pure 0

unfoldable pub nes_imm : Action ℕ
nes_imm = do m ← get; set_addr_abs m.pc; set_pc (m.pc + 1); pure 0

unfoldable pub nes_zp0 : Action ℕ
nes_zp0 = do v ← next_byte; set_addr_abs (bit_and v 0x00FF); pure 0

-- The index register is added to the program counter, and not to the operand.
unfoldable pub indexed_zero_page : ℕ → Action ℕ
indexed_zero_page index = do
  m ← get
  v ← nes_cpu_read (m.pc + index) false
  set_pc (m.pc + 1)
  set_addr_abs (bit_and v 0xFF)
  pure 0

unfoldable pub nes_zpx : Action ℕ
nes_zpx = do m ← get; indexed_zero_page m.x

unfoldable pub nes_zpy : Action ℕ
nes_zpy = do m ← get; indexed_zero_page m.y

unfoldable pub nes_rel : Action ℕ
nes_rel = do
  v ← next_byte
  set_addr_rel (if nonzero (bit_and v 0x80) then bit_or v 0xFF00 else v)
  pure 0

-- The two operand bytes, low then high.
unfoldable pub operand_word : Action (ℕ × ℕ)
operand_word = do lo ← next_byte; hi ← next_byte; pure (lo, hi)

unfoldable pub nes_abs : Action ℕ
nes_abs = do (lo, hi) ← operand_word; set_addr_abs (bit_or (hi << 8) lo); pure 0

-- 1 if the effective address left the page of the base address.
abbrev pub page_crossed : ℕ → ℕ → ℕ
page_crossed address hi = if bit_and address 0xFF00 == hi << 8 then 0 else 1

unfoldable pub indexed_absolute : ℕ → Action ℕ
indexed_absolute index = do
  (lo, hi) ← operand_word
  set_addr_abs (u16 (bit_or (hi << 8) lo) + index)
  m ← get
  pure (page_crossed m.addr_abs hi)

unfoldable pub nes_abx : Action ℕ
nes_abx = do m ← get; indexed_absolute m.x

unfoldable pub nes_aby : Action ℕ
nes_aby = do m ← get; indexed_absolute m.y

-- With a pointer at the end of a page the high byte comes from the start of that page.
unfoldable pub nes_ind : Action ℕ
nes_ind = do
  (lo, hi) ← operand_word
  let ptr = u16 (bit_or (hi << 8) lo)
  hi' ← nes_cpu_read (if lo == 0x00FF then bit_and ptr 0xFF00 else ptr + 1) false
  lo' ← nes_cpu_read (ptr + 0) false
  set_addr_abs (bit_or (hi' << 8) lo')
  pure 0

-- The source multiplies by 0xFF where it means to mask.
unfoldable pub nes_izx : Action ℕ
nes_izx = do
  val ← next_byte
  m ← get
  lo ← nes_cpu_read (bit_and (u16 (val + m.x)) 0x00FF) false
  hi ← nes_cpu_read (u16 (val + m.x + 1) * 0x00FF) false
  set_addr_abs (bit_or (hi << 8) lo)
  pure 0

unfoldable pub nes_izy : Action ℕ
nes_izy = do
  val ← next_byte
  lo ← nes_cpu_read (bit_and val 0x00FF) false
  hi ← nes_cpu_read (bit_and (val + 1) 0x00FF) false
  m ← get
  set_addr_abs (u16 (bit_or (hi << 8) lo) + m.y)
  m ← get
  pure (page_crossed m.addr_abs hi)

-- The call through `addr_mode`.
unfoldable pub run_mode : Mode → Action ℕ
run_mode imp = nes_imp
run_mode imm = nes_imm
run_mode zp0 = nes_zp0
run_mode zpx = nes_zpx
run_mode zpy = nes_zpy
run_mode rel = nes_rel
run_mode abs = nes_abs
run_mode abx = nes_abx
run_mode aby = nes_aby
run_mode ind = nes_ind
run_mode izx = nes_izx
run_mode izy = nes_izy
