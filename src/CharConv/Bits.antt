-- ===== src/CharConv/Bits.antt =====
-- The bitwise or of numbers that have no binary digit in common.
use Prim.Native.Nat.{max, digits, bit_or-bitwise}
use datacard.Base.{ℕ, zero, suc, ◌+◌, ◌*◌, ◌/◌, ◌%◌, ◌≤◌, ◌<◌, ◌≡◌, refl, bit_or, arith}

abbrev or_digits : ℕ → ℕ → ℕ → ℕ
or_digits n a b = digits (λ c. c) max n a b

-- A count of digits that is large enough can be any.
more_digits : (n m a b : ℕ) → a ≤ n → a ≤ m → or_digits n a b ≡ or_digits m a b
more_digits zero zero a b p q = refl
more_digits zero (suc m) zero b p q = refl
more_digits zero (suc m) (suc a) b p q = absurd (omega arith)
more_digits (suc n) zero zero b p q = refl
more_digits (suc n) zero (suc a) b p q = absurd (omega arith)
more_digits (suc n) (suc m) zero b p q = refl
more_digits (suc n) (suc m) (suc a) b p q =
    omega (arith, more_digits n m (suc a / 2) (b / 2) (omega arith) (omega arith))

zero-bit_or : (b : ℕ) → bit_or 0 b ≡ b
zero-bit_or b = bit_or-bitwise 0 b

lowest_digit : (a b : ℕ) → bit_or a b ≡ bit_or (a / 2) (b / 2) * 2 + max (a % 2) (b % 2)
lowest_digit zero b = omega (arith, zero-bit_or b, zero-bit_or (b / 2))
lowest_digit (suc a) b = omega (
  arith,
  bit_or-bitwise (suc a) b,
  bit_or-bitwise (suc a / 2) (b / 2),
  more_digits a (suc a / 2) (suc a / 2) (b / 2) (omega arith) (omega arith),
)

bit_or-zero_fuel : (n a : ℕ) → a ≤ n → bit_or a 0 ≡ a
bit_or-zero_fuel n zero h = zero-bit_or 0
bit_or-zero_fuel zero (suc a) h = absurd (omega arith)
bit_or-zero_fuel (suc n) (suc a) h =
    omega (arith, lowest_digit (suc a) 0, bit_or-zero_fuel n (suc a / 2) (omega arith))

-- `b` stands below the digits of `a`, or `a` below those of `b`.
pub bit_or_1 : (a b : ℕ) → b < 1 → bit_or a b ≡ a + b
bit_or_1 a zero h = omega (arith, bit_or-zero_fuel a a (omega arith))
bit_or_1 a (suc b) h = absurd (omega arith)

pub or_bit_1 : (a b : ℕ) → a < 1 → bit_or a b ≡ a + b
or_bit_1 zero b h = omega (arith, zero-bit_or b)
or_bit_1 (suc a) b h = absurd (omega arith)

pub bit_or_2 : (a b : ℕ) → a % 2 ≡ 0 → b < 2 → bit_or a b ≡ a + b
bit_or_2 a b p q = omega (arith, lowest_digit a b, bit_or_1 (a / 2) (b / 2) (omega arith))

pub or_bit_2 : (a b : ℕ) → a < 2 → b % 2 ≡ 0 → bit_or a b ≡ a + b
or_bit_2 a b p q = omega (arith, lowest_digit a b, or_bit_1 (a / 2) (b / 2) (omega arith))

pub bit_or_4 : (a b : ℕ) → a % 4 ≡ 0 → b < 4 → bit_or a b ≡ a + b
bit_or_4 a b p q =
    omega (arith, lowest_digit a b, bit_or_2 (a / 2) (b / 2) (omega arith) (omega arith))

pub or_bit_4 : (a b : ℕ) → a < 4 → b % 4 ≡ 0 → bit_or a b ≡ a + b
or_bit_4 a b p q =
    omega (arith, lowest_digit a b, or_bit_2 (a / 2) (b / 2) (omega arith) (omega arith))

pub bit_or_8 : (a b : ℕ) → a % 8 ≡ 0 → b < 8 → bit_or a b ≡ a + b
bit_or_8 a b p q =
    omega (arith, lowest_digit a b, bit_or_4 (a / 2) (b / 2) (omega arith) (omega arith))

pub or_bit_8 : (a b : ℕ) → a < 8 → b % 8 ≡ 0 → bit_or a b ≡ a + b
or_bit_8 a b p q =
    omega (arith, lowest_digit a b, or_bit_4 (a / 2) (b / 2) (omega arith) (omega arith))

pub bit_or_16 : (a b : ℕ) → a % 16 ≡ 0 → b < 16 → bit_or a b ≡ a + b
bit_or_16 a b p q =
    omega (arith, lowest_digit a b, bit_or_8 (a / 2) (b / 2) (omega arith) (omega arith))

pub or_bit_16 : (a b : ℕ) → a < 16 → b % 16 ≡ 0 → bit_or a b ≡ a + b
or_bit_16 a b p q =
    omega (arith, lowest_digit a b, or_bit_8 (a / 2) (b / 2) (omega arith) (omega arith))

pub bit_or_32 : (a b : ℕ) → a % 32 ≡ 0 → b < 32 → bit_or a b ≡ a + b
bit_or_32 a b p q =
    omega (arith, lowest_digit a b, bit_or_16 (a / 2) (b / 2) (omega arith) (omega arith))

pub or_bit_32 : (a b : ℕ) → a < 32 → b % 32 ≡ 0 → bit_or a b ≡ a + b
or_bit_32 a b p q =
    omega (arith, lowest_digit a b, or_bit_16 (a / 2) (b / 2) (omega arith) (omega arith))

pub bit_or_64 : (a b : ℕ) → a % 64 ≡ 0 → b < 64 → bit_or a b ≡ a + b
bit_or_64 a b p q =
    omega (arith, lowest_digit a b, bit_or_32 (a / 2) (b / 2) (omega arith) (omega arith))

pub or_bit_64 : (a b : ℕ) → a < 64 → b % 64 ≡ 0 → bit_or a b ≡ a + b
or_bit_64 a b p q =
    omega (arith, lowest_digit a b, or_bit_32 (a / 2) (b / 2) (omega arith) (omega arith))

pub bit_or_128 : (a b : ℕ) → a % 128 ≡ 0 → b < 128 → bit_or a b ≡ a + b
bit_or_128 a b p q =
    omega (arith, lowest_digit a b, bit_or_64 (a / 2) (b / 2) (omega arith) (omega arith))

pub or_bit_128 : (a b : ℕ) → a < 128 → b % 128 ≡ 0 → bit_or a b ≡ a + b
or_bit_128 a b p q =
    omega (arith, lowest_digit a b, or_bit_64 (a / 2) (b / 2) (omega arith) (omega arith))
