-- ===== src/Nes/Clock.antt =====
-- `nes_clock`, `nes_reset` and `nes_ins_complete` of kernel/src/nes6502.c.
use mnes_hrel.Common.{
  ℕ, zero, suc, ◌+◌, Bool, true, false, bit_and, bit_or, ◌==◌, if◌then◌else◌, dec8,
}
use mnes_hrel.Nes.Machine.{
  Machine, Action, pure, get, ◌>>=◌, ◌>>◌, set_a, set_x, set_y, set_p, set_sp, set_pc, set_fetched,
  set_addr_abs, set_addr_rel, set_opcode, set_cycles,
}
use mnes_hrel.Nes.Bus.{nes_cpu_read}
use mnes_hrel.Nes.Registers.{nes_setflag, mask, flag_u}
use mnes_hrel.Nes.Instruction.{Instruction}
use mnes_hrel.Nes.AddrMode.{current, run_mode}
use mnes_hrel.Nes.Ops.{run_operation}
use mnes_hrel.Nes.Ops.Stack.{read_vector}

-- Addressing mode, operation and the extra cycle of the instruction `i`.
unfoldable pub execute : Instruction → Action (Unit {0})
execute i = do
  set_cycles i.cycles
  additional_cycle1 ← run_mode i.addr_mode
  additional_cycle2 ← run_operation i.operation
  m ← get
  set_cycles (m.cycles + bit_and additional_cycle1 additional_cycle2)

-- Reads the opcode at PC, sets the unused flag and steps PC.
unfoldable pub read_opcode : Action (Unit {0})
read_opcode = do
  m ← get
  opcode ← nes_cpu_read m.pc false
  set_opcode opcode
  nes_setflag flag_u true
  m ← get
  set_pc (m.pc + 1)

-- The body for `nes_cycles == 0`: the whole instruction at PC.
unfoldable pub next_instruction : Action (Unit {0})
next_instruction = do read_opcode; i ← current; execute i; nes_setflag flag_u true

unfoldable pub nes_clock : Action (Unit {0})
nes_clock = do
  m ← get
  if m.cycles == 0 then next_instruction else pure tt
  m ← get
  set_cycles (dec8 m.cycles)

-- `n` calls of `nes_clock`, as the loop of `kmain` makes them.
unfoldable pub clocks : ℕ → Action (Unit {0})
clocks zero = pure tt
clocks (suc n) = do nes_clock; clocks n

abbrev pub nes_ins_complete : Machine → Bool
nes_ins_complete m = m.cycles == 0

unfoldable pub nes_reset : Action (Unit {0})
nes_reset = do
  set_addr_abs 0xFFFC
  target ← read_vector 0xFFFC
  set_pc target
  set_a 0
  set_x 0
  set_y 0
  set_sp 0xFD
  set_p (bit_or 0x00 (mask flag_u))
  set_addr_rel 0x0000
  set_addr_abs 0x0000
  set_fetched 0x00
  set_cycles 8
