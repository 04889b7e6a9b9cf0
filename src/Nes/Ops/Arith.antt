-- ===== src/Nes/Ops/Arith.antt =====
-- Arithmetic, comparison, increment and decrement operations of kernel/src/nes6502.c.
use mnes_hrel.Common.{ℕ, ◌+◌, ◌-◌, ◌*◌, bit_and, bit_xor, bit, ltb, leb, ◌==◌, nonzero, u16, dec8}
use mnes_hrel.Nes.Machine.{Action, pure, get, ◌>>=◌, ◌>>◌, set_a, set_x, set_y}
use mnes_hrel.Nes.Bus.{nes_cpu_write}
use mnes_hrel.Nes.Registers.{nes_setflag, nes_getflag, flag_c, flag_z, flag_v, flag_n}
use mnes_hrel.Nes.AddrMode.{nes_fetch}

-- `nes_setflag(Z, z == 0); nes_setflag(N, n & 0x80)`.
unfoldable pub set_zn : ℕ → ℕ → Action (Unit {0})
set_zn z n = do nes_setflag flag_z (z == 0); nes_setflag flag_n (nonzero (bit_and n 0x80))

-- The test for the zero flag is an assignment of 0 to `val`, which the rest of the body reads.
unfoldable pub nes_adc : Action ℕ
nes_adc = do
  fetched ← nes_fetch
  m ← get
  c ← nes_getflag flag_c
  let sum : ℕ = u16 (m.a + m.fetched + bit c)
  nes_setflag flag_c (ltb 255 sum)
  let val : ℕ = 0
  nes_setflag flag_z (nonzero val)
  nes_setflag flag_v
      (nonzero (bit_and (bit_xor (0xFFFFFFFF - m.a) (bit_and m.fetched (bit_xor m.a val))) 0x0080))
  nes_setflag flag_n (nonzero (bit_and val 0x80))
  set_a (bit_and val 0x00FF)
  pure 1

-- The result is multiplied by 0xFF where the source means to mask.
unfoldable pub nes_sbc : Action ℕ
nes_sbc = do
  fetched ← nes_fetch
  m ← get
  c ← nes_getflag flag_c
  let val = bit_xor m.fetched 0x00FF
  let temp = u16 (m.a + val + bit c)
  nes_setflag flag_c (nonzero (bit_and temp 0xFF00))
  nes_setflag flag_z (bit_and temp 0x00FF == 0x0)
  nes_setflag flag_v (nonzero (bit_and (bit_and (bit_xor temp m.a) (bit_xor temp val)) 0x0080))
  nes_setflag flag_n (nonzero (bit_and temp 0x80))
  set_a (temp * 0x0FF)
  pure 1

-- The common body of CMP, CPX and CPY, over the register compared.
unfoldable pub compare_with : ℕ → ℕ → Action ℕ
compare_with register fetched = do
  let val = u16 (register + 65536 - fetched)
  nes_setflag flag_c (leb fetched register)
  set_zn (bit_and val 0xFF) val
  pure 1

unfoldable pub nes_cmp : Action ℕ
nes_cmp = do v ← nes_fetch; m ← get; compare_with m.a m.fetched

unfoldable pub nes_cpx : Action ℕ
nes_cpx = do v ← nes_fetch; m ← get; compare_with m.x m.fetched

unfoldable pub nes_cpy : Action ℕ
nes_cpy = do v ← nes_fetch; m ← get; compare_with m.y m.fetched

unfoldable pub nes_dec : Action ℕ
nes_dec = do
  v ← nes_fetch
  m ← get
  let val = u16 (m.fetched + 65536 - 1)
  nes_cpu_write m.addr_abs (bit_and val 0x00FF)
  set_zn (bit_and val 0x00FF) val
  pure 0

unfoldable pub nes_inc : Action ℕ
nes_inc = do
  v ← nes_fetch
  m ← get
  let val = u16 (m.fetched + 1)
  nes_cpu_write m.addr_abs (bit_and val 0xFF)
  set_zn (bit_and val 0xFF) val
  pure 0

-- DEX and DEY set the negative flag first.
unfoldable pub set_nz : ℕ → Action (Unit {0})
set_nz r = do
  nes_setflag flag_n (nonzero (bit_and r 0x80))
  nes_setflag flag_z (bit_and r 0xFF == 0x0)

unfoldable pub nes_dex : Action ℕ
nes_dex = do m ← get; set_x (dec8 m.x); m ← get; set_nz m.x; pure 0

unfoldable pub nes_dey : Action ℕ
nes_dey = do m ← get; set_y (dec8 m.y); m ← get; set_nz m.y; pure 0

unfoldable pub nes_inx : Action ℕ
nes_inx = do v ← nes_fetch; m ← get; set_x (m.x + 1); m ← get; set_zn (bit_and m.x 0xFF) m.x; pure 0

unfoldable pub nes_iny : Action ℕ
nes_iny = do v ← nes_fetch; m ← get; set_y (m.y + 1); m ← get; set_zn (bit_and m.y 0xFF) m.y; pure 0
