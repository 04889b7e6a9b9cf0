-- ===== src/Common/Word.antt =====
-- The casts to C's unsigned widths, and shifts by a constant.
use Prim.Native.Nat.{ℕ, ◌+◌, ◌*◌, ◌/◌, ◌%◌, ◌^◌}

abbrev pub u8 : ℕ → ℕ
u8 n = n % 256

abbrev pub u16 : ℕ → ℕ
u16 n = n % 65536

abbrev pub u32 : ℕ → ℕ
u32 n = n % 4294967296

infixl 72 ◌<<◌ ◌>>>◌
abbrev pub ◌<<◌ : ℕ → ℕ → ℕ
x << k = x * 2 ^ k

abbrev pub ◌>>>◌ : ℕ → ℕ → ℕ
x >>> k = x / 2 ^ k

-- `r--` on a `uint8_t`, and on a `uint16_t`.
abbrev pub dec8 : ℕ → ℕ
dec8 n = (n + 255) % 256

abbrev pub dec16 : ℕ → ℕ
dec16 n = (n + 65535) % 65536

-- The value -1 of a 32-bit integer.
abbrev pub minus_one : ℕ
minus_one = 0xFFFFFFFF
