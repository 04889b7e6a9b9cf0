-- ===== src/Nes/Ops/Branch.antt =====
-- The branch operations of kernel/src/nes6502.c, and its jump.
use mnes_hrel.Common.{ℕ, ◌+◌, Bool, not, bit_and, ◌==◌, if◌then◌else◌}
use mnes_hrel.Nes.Machine.{Action, pure, get, ◌>>=◌, ◌>>◌, set_cycles, set_addr_abs, set_pc}
use mnes_hrel.Nes.Registers.{nes_getflag, flag_c, flag_z, flag_v, flag_n}

-- The body of the eight branches: a cycle for the branch, another for leaving the page.
unfoldable pub take_branch : Action (Unit {0})
take_branch = do
  m ← get
  set_cycles (m.cycles + 1)
  set_addr_abs (m.pc + m.addr_rel)
  m ← get
  if bit_and m.addr_abs 0xFF00 == bit_and m.pc 0xFF00 then pure tt else set_cycles (m.cycles + 1)
  set_pc m.addr_abs

unfoldable pub branch_if : Bool → Action ℕ
branch_if condition = do if condition then take_branch else pure tt; pure 0

unfoldable pub nes_bcc : Action ℕ
nes_bcc = do c ← nes_getflag flag_c; branch_if (not c)

unfoldable pub nes_bcs : Action ℕ
nes_bcs = do c ← nes_getflag flag_c; branch_if c

unfoldable pub nes_beq : Action ℕ
nes_beq = do z ← nes_getflag flag_z; branch_if z

unfoldable pub nes_bmi : Action ℕ
nes_bmi = do n ← nes_getflag flag_n; branch_if n

unfoldable pub nes_bne : Action ℕ
nes_bne = do z ← nes_getflag flag_z; branch_if (not z)

unfoldable pub nes_bpl : Action ℕ
nes_bpl = do n ← nes_getflag flag_n; branch_if (not n)

unfoldable pub nes_bvc : Action ℕ
nes_bvc = do v ← nes_getflag flag_v; branch_if (not v)

unfoldable pub nes_bvs : Action ℕ
nes_bvs = do v ← nes_getflag flag_v; branch_if v

unfoldable pub nes_jmp : Action ℕ
nes_jmp = do m ← get; set_pc m.addr_abs; pure 0
