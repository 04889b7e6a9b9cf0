-- ===== src/Nes/Ops/Transfer.antt =====
-- Loads, stores, transfers, flag operations and NOP of kernel/src/nes6502.c.
use mnes_hrel.Common.{ℕ, Bool, true, false, ◌||◌, bit_and, ◌==◌, nonzero, if◌then◌else◌}
use mnes_hrel.Nes.Machine.{Action, pure, get, ◌>>=◌, ◌>>◌, set_a, set_x, set_y, set_sp}
use mnes_hrel.Nes.Bus.{nes_cpu_write}
use mnes_hrel.Nes.Registers.{nes_setflag, flag_c, flag_z, flag_i, flag_d, flag_v, flag_n}
use mnes_hrel.Nes.AddrMode.{nes_fetch}
use mnes_hrel.Nes.Ops.Arith.{set_zn}

unfoldable pub nes_lda : Action ℕ
nes_lda = do v ← nes_fetch; m ← get; set_a m.fetched; m ← get; set_zn m.a m.a; pure 1

unfoldable pub nes_ldx : Action ℕ
nes_ldx = do v ← nes_fetch; m ← get; set_x m.fetched; m ← get; set_zn m.x m.x; pure 1

unfoldable pub nes_ldy : Action ℕ
nes_ldy = do v ← nes_fetch; m ← get; set_y m.fetched; m ← get; set_zn m.y m.y; pure 1

unfoldable pub nes_sta : Action ℕ
nes_sta = do m ← get; nes_cpu_write m.addr_abs m.a; pure 0

unfoldable pub nes_stx : Action ℕ
nes_stx = do m ← get; nes_cpu_write m.addr_abs m.x; pure 0

unfoldable pub nes_sty : Action ℕ
nes_sty = do m ← get; nes_cpu_write m.addr_abs m.y; pure 0

-- The source gives each flag the test of the other.
unfoldable pub nes_tax : Action ℕ
nes_tax = do
  m ← get
  set_x m.a
  m ← get
  nes_setflag flag_n (m.x == 0x0)
  nes_setflag flag_z (nonzero (bit_and m.x 0x80))
  pure 0

unfoldable pub nes_tay : Action ℕ
nes_tay = do m ← get; set_y m.a; m ← get; set_zn m.y m.y; pure 0

unfoldable pub nes_tsx : Action ℕ
nes_tsx = do m ← get; set_x m.sp; m ← get; set_zn m.x m.x; pure 0

unfoldable pub nes_txa : Action ℕ
nes_txa = do m ← get; set_a m.x; m ← get; set_zn m.a m.a; pure 0

unfoldable pub nes_txs : Action ℕ
nes_txs = do m ← get; set_sp m.x; pure 0

unfoldable pub nes_tya : Action ℕ
nes_tya = do m ← get; set_a m.y; m ← get; set_zn m.a m.a; pure 0

unfoldable pub nes_clc : Action ℕ
nes_clc = do nes_setflag flag_c false; pure 0

unfoldable pub nes_cld : Action ℕ
nes_cld = do nes_setflag flag_d false; pure 0

unfoldable pub nes_cli : Action ℕ
nes_cli = do nes_setflag flag_i false; pure 0

unfoldable pub nes_clv : Action ℕ
nes_clv = do nes_setflag flag_v false; pure 0

unfoldable pub nes_sec : Action ℕ
nes_sec = do nes_setflag flag_c true; pure 0

unfoldable pub nes_sed : Action ℕ
nes_sed = do nes_setflag flag_d true; pure 0

unfoldable pub nes_sei : Action ℕ
nes_sei = do nes_setflag flag_i true; pure 0

-- The opcodes for which NOP asks for a cycle more.
abbrev pub slow_nop : ℕ → Bool
slow_nop o = o == 0x1C || o == 0x3C || o == 0x5C || o == 0x7C || o == 0xDC || o == 0xFC

unfoldable pub nes_nop : Action ℕ
nes_nop = do m ← get; pure (if slow_nop m.opcode then 1 else 0)

-- The message on the console is not modelled.
unfoldable pub nes_udf : Action ℕ
nes_udf = pure 0
