-- ===== src/Fat/Bytes.antt =====
-- Buffers of bytes, and the little-endian integers that the drivers read out of them.
use mnes_hrel.Common.{ℕ, zero, suc, ◌+◌, ◌*◌, ◌^◌, ◌<◌, ◌≡◌, ap, arith, bit_or, ◌<<◌, u32}
use mnes_hrel.Common.Bits.{bit_or-field}

-- `readPtr[1] << 8 | readPtr[0]` at offset `i`.
abbrev pub word16 : (ℕ → ℕ) → ℕ → ℕ
word16 b i = bit_or (b (i + 1) << 8) (b i)

-- `readPtr[2] << 16 | readPtr[1] << 8 | readPtr[0]`.
abbrev pub word24 : (ℕ → ℕ) → ℕ → ℕ
word24 b i = bit_or (bit_or (b (i + 2) << 16) (b (i + 1) << 8)) (b i)

-- `readPtr[3] << 24 | readPtr[2] << 16 | readPtr[1] << 8 | readPtr[0]`, stored in a `uint32_t`.
abbrev pub word32 : (ℕ → ℕ) → ℕ → ℕ
word32 b i =
    u32 (bit_or (bit_or (bit_or (b (i + 3) << 24) (b (i + 2) << 16)) (b (i + 1) << 8)) (b i))

-- The number whose `k` little-endian bytes stand at offset `i`.
unfoldable pub le : ℕ → (ℕ → ℕ) → ℕ → ℕ
le zero b i = 0
le (suc k) b i = b i + 256 * le k b (i + 1)

-- Every byte is below 256.
unfoldable pub IsBuffer : (ℕ → ℕ) → Type 0
IsBuffer b = (i : ℕ) → b i < 256

module _ (b : ℕ → ℕ) (i : ℕ) where
  second : b (i + 1 + 1) ≡ b (i + 2)
  second = ap b (omega arith)

  third : b (i + 1 + 1 + 1) ≡ b (i + 3)
  third = ap b (omega arith)

module _ (b : ℕ → ℕ) (bytes : IsBuffer b) (i : ℕ) where
  pub word16-le : word16 b i ≡ le 2 b i
  unfolding le IsBuffer
  word16-le = omega (arith, bit_or-field 8 (b (i + 1)) (b i) (bytes i))

  top_bytes : bit_or (b (i + 2) << 16) (b (i + 1) << 8) ≡ (b (i + 2) * 256 + b (i + 1)) * 2 ^ 8
  unfolding IsBuffer
  top_bytes =
      let h : b (i + 1) < 256 = bytes (i + 1) in
      omega (arith, bit_or-field 16 (b (i + 2)) (b (i + 1) * 256) (omega arith))

  pub word24-le : word24 b i ≡ le 3 b i
  unfolding le IsBuffer
  word24-le =
      rw top_bytes
        (omega (arith, bit_or-field 8 (b (i + 2) * 256 + b (i + 1)) (b i) (bytes i), second b i))

module _ (b : ℕ → ℕ) (bytes : IsBuffer b) (i : ℕ) where
  upper_half : bit_or (b (i + 3) << 24) (b (i + 2) << 16) ≡ (b (i + 3) * 256 + b (i + 2)) * 2 ^ 16
  unfolding IsBuffer
  upper_half =
      let h : b (i + 2) < 256 = bytes (i + 2) in
      omega (arith, bit_or-field 24 (b (i + 3)) (b (i + 2) * 65536) (omega arith))

  upper_bytes :
      bit_or (bit_or (b (i + 3) << 24) (b (i + 2) << 16)) (b (i + 1) << 8)
      ≡ ((b (i + 3) * 256 + b (i + 2)) * 256 + b (i + 1)) * 2 ^ 8
  unfolding IsBuffer
  upper_bytes =
      let h : b (i + 1) < 256 = bytes (i + 1) in
      rw upper_half (
        omega
          (arith, bit_or-field 16 (b (i + 3) * 256 + b (i + 2)) (b (i + 1) * 256) (omega arith)))

  pub word32-le : word32 b i ≡ le 4 b i
  unfolding le IsBuffer
  word32-le = rw upper_bytes (
      omega (
        arith,
        bit_or-field 8 ((b (i + 3) * 256 + b (i + 2)) * 256 + b (i + 1)) (b i) (bytes i),
        bytes (i + 1),
        bytes (i + 2),
        bytes (i + 3),
        bytes i,
        second b i,
        third b i,
      ))
