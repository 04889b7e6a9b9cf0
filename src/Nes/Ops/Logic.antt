-- ===== src/Nes/Ops/Logic.antt =====
-- Bitwise, shift and rotate operations of kernel/src/nes6502.c.
use mnes_hrel.Common.{
  ℕ, bit_and, bit_or, bit_xor, bit, ltb, ◌==◌, nonzero, ◌<<◌, ◌>>>◌, if◌then◌else◌, u8, u16,
}
use mnes_hrel.Nes.Machine.{Action, pure, get, ◌>>=◌, ◌>>◌, set_a}
use mnes_hrel.Nes.Bus.{nes_cpu_write}
use mnes_hrel.Nes.Registers.{nes_setflag, nes_getflag, flag_c, flag_z, flag_v, flag_n}
use mnes_hrel.Nes.AddrMode.{current, is_imp, nes_fetch}
use mnes_hrel.Nes.Ops.Arith.{set_zn}

unfoldable pub nes_and : Action ℕ
nes_and = do v ← nes_fetch; m ← get; set_a (bit_and m.a m.fetched); m ← get; set_zn m.a m.a; pure 1

unfoldable pub nes_ora : Action ℕ
nes_ora = do v ← nes_fetch; m ← get; set_a (bit_or m.a m.fetched); m ← get; set_zn m.a m.a; pure 1

-- Only the flags are written: the source does not store the result in the accumulator.
unfoldable pub nes_eor : Action ℕ
nes_eor = do v ← nes_fetch; m ← get; let val = bit_xor m.fetched m.a; set_zn val val; pure 1

unfoldable pub nes_bit : Action ℕ
nes_bit = do
  v ← nes_fetch
  m ← get
  let val = u8 (bit_and m.a m.fetched)
  nes_setflag flag_z (val == 0)
  nes_setflag flag_n (nonzero (bit_and m.fetched (1 << 7)))
  nes_setflag flag_v (nonzero (bit_and m.fetched (1 << 6)))
  pure 0

-- The result goes to the accumulator in implied mode, and to the effective address otherwise.
unfoldable pub store_shifted : ℕ → ℕ → Action (Unit {0})
store_shifted accumulator memory = do
  i ← current
  m ← get
  if is_imp i.addr_mode then set_a accumulator else nes_cpu_write m.addr_abs memory

-- In implied mode the accumulator is given the low byte of the global `nes_temp`, not the result.
unfoldable pub nes_asl : Action ℕ
nes_asl = do
  v ← nes_fetch
  m ← get
  let val = u16 (m.fetched << 1)
  set_zn (bit_and val 0xFF) val
  nes_setflag flag_c (ltb 0 (bit_and val 0xFF00))
  store_shifted (bit_and m.temp 0xFF) (bit_and val 0xFF)
  pure 0

unfoldable pub nes_lsr : Action ℕ
nes_lsr = do
  v ← nes_fetch
  m ← get
  nes_setflag flag_c (nonzero (bit_and m.fetched 0x0001))
  let temp = m.fetched >>> 1
  set_zn (bit_and temp 0x00FF) temp
  store_shifted (bit_and temp 0x00FF) (bit_and temp 0x00FF)
  pure 0

unfoldable pub nes_rol : Action ℕ
nes_rol = do
  v ← nes_fetch
  m ← get
  c ← nes_getflag flag_c
  let temp = bit_or (u16 (m.fetched << 1)) (bit c)
  nes_setflag flag_c (nonzero (bit_and temp 0xFF00))
  set_zn (bit_and temp 0x00FF) temp
  store_shifted (bit_and temp 0x00FF) (bit_and temp 0x00FF)
  pure 0

unfoldable pub nes_ror : Action ℕ
nes_ror = do
  v ← nes_fetch
  m ← get
  c ← nes_getflag flag_c
  let temp = bit_or (u16 (bit c << 7)) (m.fetched >>> 1)
  nes_setflag flag_c (nonzero (bit_and m.fetched 0x01))
  set_zn (bit_and temp 0x00FF) temp
  store_shifted (bit_and temp 0x00FF) (bit_and temp 0x00FF)
  pure 0
