-- ===== src/Common/Bits.antt =====
-- Masks and disjoint fields of `bit_and` and `bit_or` as arithmetic, and tables over one byte.
use Prim.Native.Nat.{
  ℕ, zero, suc, ◌+◌, ◌-◌, ◌*◌, ◌/◌, ◌%◌, ◌^◌, ◌≤◌, ◌<◌, min, max, bit_and, bit_or, bitwise, digits,
  bit_and-bitwise, bit_or-bitwise,
}
use mathlib.Core.Path.{◌≡◌, refl, ap, ◌∙◌}
use mathlib.Core.Bool.{Bool, true, ◌&&◌}
use native.Mathlib.Nat.{pow-suc, one-le-pow}
use native.Mathlib.Omega.{arith}
use mnes_hrel.Common.Tests.{◌==◌, eq_of_==}

-- Every value below `n` passes the test.
unfoldable pub all_below : ℕ → (ℕ → Bool) → Bool
all_below zero test = true
all_below (suc n) test = test n && all_below n test

pub all_below-true :
    (n : ℕ) (test : ℕ → Bool) (x : ℕ) → all_below n test ≡ true → x < n → test x ≡ true
unfolding all_below
all_below-true zero test x h lt = absurd (omega arith)
all_below-true (suc n) test x h lt = ground (arith, all_below-true n test x)

-- Two functions that agree on a table of bytes agree on every byte.
pub byte_table :
    (f g : ℕ → ℕ) (x : ℕ) → all_below 256 (λ n. f n == g n) ≡ true → x < 256 → f x ≡ g x
byte_table f g x h lt = eq_of_== (f x) (g x) (all_below-true 256 (λ n. f n == g n) x h lt)

-- The digit recursion behind the native operations does not depend on its fuel.
module _ (rest : ℕ → ℕ) (op : ℕ → ℕ → ℕ) where
  enough : (k l : ℕ) (a b : ℕ) → a ≤ k → a ≤ l → digits rest op k a b ≡ digits rest op l a b
  enough zero zero a b p q = refl
  enough zero (suc l) zero b p q = refl
  enough zero (suc l) (suc a) b p q = absurd (omega arith)
  enough (suc k) zero zero b p q = refl
  enough (suc k) zero (suc a) b p q = absurd (omega arith)
  enough (suc k) (suc l) zero b p q = refl
  enough (suc k) (suc l) (suc a) b p q =
      ap (λ (t : ℕ). t * 2 + op (suc a % 2) (b % 2))
        (enough k l (suc a / 2) (b / 2) (omega arith) (omega arith))

  lowest_digit :
      (a b : ℕ)
      → bitwise rest op (suc a) b ≡ bitwise rest op (suc a / 2) (b / 2) * 2 + op (suc a % 2) (b % 2)
  lowest_digit a b =
      ap (λ (t : ℕ). t * 2 + op (suc a % 2) (b % 2))
        (enough a (suc a / 2) (suc a / 2) (b / 2) (omega arith) (omega arith))

pub bit_and-halve : (a b : ℕ) → bit_and a b ≡ bit_and (a / 2) (b / 2) * 2 + min (a % 2) (b % 2)
bit_and-halve zero b = rw (bit_and-bitwise 0 b, bit_and-bitwise 0 (b / 2)) (omega arith)
bit_and-halve (suc a) b =
    rw (bit_and-bitwise (suc a) b, bit_and-bitwise (suc a / 2) (b / 2))
      (lowest_digit (λ _. 0) min a b)

pub bit_or-halve : (a b : ℕ) → bit_or a b ≡ bit_or (a / 2) (b / 2) * 2 + max (a % 2) (b % 2)
bit_or-halve zero b = rw (bit_or-bitwise 0 b, bit_or-bitwise 0 (b / 2)) (omega arith)
bit_or-halve (suc a) b =
    rw (bit_or-bitwise (suc a) b, bit_or-bitwise (suc a / 2) (b / 2))
      (lowest_digit (λ y. y) max a b)

-- What is zero above `n` halvings is zero.
and_zero : (n a : ℕ) → a ≤ n → bit_and a 0 ≡ 0
and_zero n zero h = refl
and_zero zero (suc a) h = absurd (omega arith)
and_zero (suc n) (suc a) h =
    omega (arith, bit_and-halve (suc a) 0, and_zero n (suc a / 2) (omega arith))

or_zero : (n a : ℕ) → a ≤ n → bit_or a 0 ≡ a
or_zero n zero h = refl
or_zero zero (suc a) h = absurd (omega arith)
or_zero (suc n) (suc a) h =
    omega (arith, bit_or-halve (suc a) 0, or_zero n (suc a / 2) (omega arith))

-- One more low bit, as it stands in front of a field `q`.
double_field : (q k : ℕ) → q * 2 ^ suc k ≡ 2 * (q * 2 ^ k)
double_field q k = omega (arith, ap (λ (t : ℕ). q * t) (pow-suc 2 k))

-- The mask of `k` ones keeps the low field.
and_low_field : (k q r : ℕ) → r < 2 ^ k → bit_and (q * 2 ^ k + r) (2 ^ k - 1) ≡ r
and_low_field zero q r h = omega (arith, and_zero (q * 1 + r) (q * 1 + r) (omega arith))
and_low_field (suc k) q r h = ground (
  arith,
  bit_and-halve (q * 2 ^ suc k + r) (2 ^ suc k - 1),
  double_field q k,
  pow-suc 2 k,
  and_low_field k q (r / 2) (omega (arith, pow-suc 2 k)),
)

pub bit_and-ones : (k a : ℕ) → bit_and a (2 ^ k - 1) ≡ a % 2 ^ k
bit_and-ones k a = ground (arith, one-le-pow k 2, and_low_field k (a / 2 ^ k) (a % 2 ^ k))

-- A mask with no lowest bit.
pub bit_and-even : (a b : ℕ) → bit_and a (2 * b) ≡ bit_and (a / 2) b * 2
bit_and-even a b = ground (
  arith,
  bit_and-halve a (2 * b),
  ap (bit_and (a / 2)) (let e : 2 * b / 2 ≡ b = omega arith in e),
)

and_above_4 : (a b : ℕ) → bit_and a (16 * b) ≡ bit_and (a / 16) b * 16
and_above_4 a b = ground (
  arith,
  ap (bit_and a) (let e : 16 * b ≡ 2 * (8 * b) = omega arith in e),
  bit_and-even a (8 * b),
  ap (bit_and (a / 2)) (let e : 8 * b ≡ 2 * (4 * b) = omega arith in e),
  bit_and-even (a / 2) (4 * b),
  ap (bit_and (a / 2 / 2)) (let e : 4 * b ≡ 2 * (2 * b) = omega arith in e),
  bit_and-even (a / 2 / 2) (2 * b),
  bit_and-even (a / 2 / 2 / 2) b,
  ap (λ (t : ℕ). bit_and t b) (let e : a / 2 / 2 / 2 / 2 ≡ a / 16 = omega arith in e),
)

-- The mask 0xFF00 keeps the page of a 16-bit address.
pub bit_and-high_byte : (a : ℕ) → bit_and a 0xFF00 ≡ a / 256 % 256 * 256
bit_and-high_byte a = omega (
  arith,
  and_above_4 a 0xFF0,
  and_above_4 (a / 16) 0xFF,
  bit_and-ones 8 (a / 16 / 16),
  ap (λ (t : ℕ). t % 256) (let e : a / 16 / 16 ≡ a / 256 = omega arith in e),
)

-- `(q << k) | r` is a sum where `r` has `k` bits.
pub bit_or-field : (k q r : ℕ) → r < 2 ^ k → bit_or (q * 2 ^ k) r ≡ q * 2 ^ k + r
bit_or-field zero q r h = ground (arith, or_zero q q)
bit_or-field (suc k) q r h = ground (
  arith,
  bit_or-halve (q * 2 ^ suc k) r,
  double_field q k,
  bit_or-field k q (r / 2) (omega (arith, pow-suc 2 k)),
)

and_le : (n a b : ℕ) → a ≤ n → bit_and a b ≤ a
and_le n zero b h = omega (arith, bit_and-bitwise 0 b)
and_le zero (suc a) b h = absurd (omega arith)
and_le (suc n) (suc a) b h =
    omega (arith, bit_and-halve (suc a) b, and_le n (suc a / 2) (b / 2) (omega arith))

pub bit_and-le : (a b : ℕ) → bit_and a b ≤ a
bit_and-le a b = and_le a a b (omega arith)

pub bit_or-lt : (k a b : ℕ) → a < 2 ^ k → b < 2 ^ k → bit_or a b < 2 ^ k
bit_or-lt zero a b h g = ground (arith, or_zero a a)
bit_or-lt (suc k) a b h g = omega (
  arith,
  pow-suc 2 k,
  bit_or-halve a b,
  bit_or-lt k (a / 2) (b / 2) (omega (arith, pow-suc 2 k)) (omega (arith, pow-suc 2 k)),
)

or_comm : (n a b : ℕ) → a ≤ n → b ≤ n → bit_or a b ≡ bit_or b a
or_comm n zero zero h g = refl
or_comm zero (suc a) b h g = absurd (omega arith)
or_comm zero zero (suc b) h g = absurd (omega arith)
or_comm (suc n) (suc a) b h g = ground (
  arith,
  bit_or-halve (suc a) b,
  bit_or-halve b (suc a),
  or_comm n (suc a / 2) (b / 2) (omega arith) (omega arith),
)
or_comm (suc n) zero (suc b) h g = ground (
  arith,
  bit_or-halve 0 (suc b),
  bit_or-halve (suc b) 0,
  or_comm n 0 (suc b / 2) (omega arith) (omega arith),
)

pub bit_or_comm : (a b : ℕ) → bit_or a b ≡ bit_or b a
bit_or_comm a b = or_comm (a + b) a b (omega arith) (omega arith)

-- The two bytes of a word, joined in either order.
pub bit_or-word : (hi lo : ℕ) → lo < 256 → bit_or (hi * 256) lo ≡ hi * 256 + lo
bit_or-word hi lo h = bit_or-field 8 hi lo h

pub bit_or_word : (hi lo : ℕ) → lo < 256 → bit_or lo (hi * 256) ≡ hi * 256 + lo
bit_or_word hi lo h = bit_or_comm lo (hi * 256) ∙ bit_or-word hi lo h

or_le : (n a b : ℕ) → a ≤ n → b ≤ bit_or a b
or_le n zero b h =
    omega (arith, or_comm (n + b) 0 b (omega arith) (omega arith), or_zero b b (omega arith))
or_le zero (suc a) b h = absurd (omega arith)
or_le (suc n) (suc a) b h =
    omega (arith, bit_or-halve (suc a) b, or_le n (suc a / 2) (b / 2) (omega arith))

pub bit_or-le : (a b : ℕ) → b ≤ bit_or a b
bit_or-le a b = or_le a a b (omega arith)
