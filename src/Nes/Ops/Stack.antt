-- ===== src/Nes/Ops/Stack.antt =====
-- Pushes and pulls, subroutines and interrupts of kernel/src/nes6502.c. The stack lies at the
-- global `nes_stack_base`, and a call of `nes_cpu_write` truncates its address.
pub mod RoundTrip
pub mod Calls
pub mod Interrupts
use mnes_hrel.Common.{
  ℕ, ◌+◌, true, false, bit_and, bit_or, ◌<<◌, ◌>>>◌, dec8, dec16, if◌then◌else◌, u32,
}
use mnes_hrel.Nes.Machine.{
  Action, pure, get, ◌>>=◌, ◌>>◌, set_a, set_p, set_sp, set_pc, set_addr_abs, set_cycles,
}
use mnes_hrel.Nes.Bus.{nes_cpu_read, nes_cpu_write}
use mnes_hrel.Nes.Registers.{nes_setflag, nes_getflag, flag_i, flag_b, flag_u}
use mnes_hrel.Nes.Ops.Arith.{set_zn}

-- `nes_cpu_write(nes_stack_base + SP, v); SP--`.
unfoldable pub push : ℕ → Action (Unit {0})
push v = do m ← get; nes_cpu_write (u32 (m.stack_base + m.sp)) v; set_sp (dec8 m.sp)

-- `SP++; nes_cpu_read(nes_stack_base + SP, false)`.
unfoldable pub pull : Action ℕ
pull = do m ← get; set_sp (m.sp + 1); m ← get; nes_cpu_read (u32 (m.stack_base + m.sp)) false

-- The high byte of PC, then the low byte.
unfoldable pub push_pc : Action (Unit {0})
push_pc = do m ← get; push (bit_and (m.pc >>> 8) 0x00FF); push (bit_and m.pc 0x00FF)

-- `PC = pull; PC |= pull << 8`.
unfoldable pub pull_pc : Action (Unit {0})
pull_pc = do lo ← pull; set_pc lo; hi ← pull; m ← get; set_pc (bit_or m.pc (hi << 8))

unfoldable pub nes_pha : Action ℕ
nes_pha = do m ← get; push m.a; pure 0

unfoldable pub nes_php : Action ℕ
nes_php = do m ← get; push m.p; nes_setflag flag_b false; nes_setflag flag_u false; pure 0

unfoldable pub nes_pla : Action ℕ
nes_pla = do v ← pull; set_a v; m ← get; set_zn m.a m.a; pure 0

unfoldable pub nes_plp : Action ℕ
nes_plp = do v ← pull; set_p v; nes_setflag flag_u true; pure 0

unfoldable pub nes_jsr : Action ℕ
nes_jsr = do m ← get; set_pc (dec16 m.pc); push_pc; m ← get; set_pc m.addr_abs; pure 0

unfoldable pub nes_rts : Action ℕ
nes_rts = do pull_pc; m ← get; set_pc (m.pc + 1); pure 0

-- `~nes_flag_B` and `~nes_flag_U` are converted to `true`.
unfoldable pub nes_rti : Action ℕ
nes_rti = do v ← pull; set_p v; nes_setflag flag_b true; nes_setflag flag_u true; pull_pc; pure 0

-- The word at `address`, low byte first.
unfoldable pub read_vector : ℕ → Action ℕ
read_vector address = do
  lo ← nes_cpu_read address false
  hi ← nes_cpu_read (address + 1) false
  pure (bit_or (hi << 8) lo)

unfoldable pub nes_brk : Action ℕ
nes_brk = do
  m ← get
  set_pc (m.pc + 1)
  nes_setflag flag_i true
  push_pc
  nes_setflag flag_b true
  m ← get
  push m.p
  nes_setflag flag_b false
  lo ← nes_cpu_read 0xFFFE false
  hi ← nes_cpu_read 0xFFFF false
  set_pc (bit_or lo (hi << 8))
  pure 0

-- What `nes_irq` and `nes_nmirq` share: PC and status pushed, and a jump through a vector.
unfoldable pub interrupt : ℕ → ℕ → Action (Unit {0})
interrupt vector duration = do
  push_pc
  nes_setflag flag_b false
  nes_setflag flag_u true
  nes_setflag flag_i true
  m ← get
  push m.p
  set_addr_abs vector
  target ← read_vector vector
  set_pc target
  set_cycles duration

unfoldable pub nes_irq : Action (Unit {0})
nes_irq = do disabled ← nes_getflag flag_i; if disabled then pure tt else interrupt 0xFFFE 7

unfoldable pub nes_nmirq : Action (Unit {0})
nes_nmirq = interrupt 0xFFFA 8
