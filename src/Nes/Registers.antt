-- ===== src/Nes/Registers.antt =====
-- The status flags of kernel/src/nes6502.c and inc/nes6502.h.
pub mod Flags
use mnes_hrel.Common.{ℕ, Bool, bit_and, bit_or, nonzero, if◌then◌else◌}
use mnes_hrel.Nes.Machine.{Machine, Action, get, pure, ◌>>=◌, set_p}

-- `enum nes_PFlags`.
pub data Flag : Type 0 where
  flag_c flag_z flag_i flag_d flag_b flag_u flag_v flag_n : Flag

abbrev pub mask : Flag → ℕ
mask flag_c = 0x01
mask flag_z = 0x02
mask flag_i = 0x04
mask flag_d = 0x08
mask flag_b = 0x10
mask flag_u = 0x20
mask flag_v = 0x40
mask flag_n = 0x80

-- The source ands with the flag itself, and not with its complement, when `clear` is false.
unfoldable pub nes_setflag : Flag → Bool → Action (Unit {0})
nes_setflag flag clear = do
  m ← get
  if clear then set_p (bit_or m.p (mask flag)) else set_p (bit_and m.p (mask flag))

-- The bit that `nes_getflag` tests.
abbrev pub flag_of : Flag → Machine → Bool
flag_of flag m = nonzero (bit_and (bit_and m.p (mask flag)) 0xFF)

unfoldable pub nes_getflag : Flag → Action Bool
nes_getflag flag = do m ← get; pure (flag_of flag m)
