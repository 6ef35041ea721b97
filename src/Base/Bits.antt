-- ===== src/Base/Bits.antt =====
-- `&`, `|` and `~` at variables, digit by digit.
use Prim.Native.Nat.{
  ℕ, zero, suc, ◌+◌, ◌-◌, ◌*◌, ◌/◌, ◌%◌, ◌^◌, ◌≤◌, ◌<◌, min, max, bit_and, bit_or, digits, bitwise,
  bit_and-bitwise, bit_or-bitwise,
}
use mathlib.Core.Path.{◌≡◌, refl, ◌∙◌}
use native.Mathlib.Nat.{pow-suc, one-le-pow}
use native.Mathlib.Omega.{arith}
use wibo.Base.Tests.{ltb, if◌then◌else◌}

-- Fuel past the first number changes nothing.
module _ (z : ℕ → ℕ) (f : ℕ → ℕ → ℕ) where
  digits-suc : (n a b : ℕ) → a ≤ n → digits z f (suc n) a b ≡ digits z f n a b
  digits-suc zero zero b h = refl
  digits-suc zero (suc a) b h = absurd (omega arith)
  digits-suc (suc n) zero b h = refl
  digits-suc (suc n) (suc a) b h = rw (digits-suc n (suc a / 2) (b / 2) (omega arith))

  digits-add : (k m n a b : ℕ) → m ≡ k + n → a ≤ n → digits z f m a b ≡ digits z f n a b
  digits-add zero m n a b e h = let e' : m ≡ n = omega arith in rw e'
  digits-add (suc k) m n a b e h =
      let e' : m ≡ suc (k + n) = omega arith in
      rw e' (digits-suc (k + n) a b (omega arith) ∙ digits-add k (k + n) n a b refl h)

  bitwise_digit :
      (a b : ℕ)
      → bitwise z f (suc a) b ≡ bitwise z f (suc a / 2) (b / 2) * 2 + f (suc a % 2) (b % 2)
  bitwise_digit a b = omega (
    arith,
    digits-add (a - suc a / 2) a (suc a / 2) (suc a / 2) (b / 2) (omega arith) (omega arith),
  )

pub bit_and-div : (a b : ℕ) → bit_and a b ≡ bit_and (a / 2) (b / 2) * 2 + min (a % 2) (b % 2)
bit_and-div zero b = simp bit_and-bitwise (omega arith)
bit_and-div (suc a) b = simp bit_and-bitwise (bitwise_digit (λ _. 0) min a b)

pub bit_or-div : (a b : ℕ) → bit_or a b ≡ bit_or (a / 2) (b / 2) * 2 + max (a % 2) (b % 2)
bit_or-div zero b = simp bit_or-bitwise (omega arith)
bit_or-div (suc a) b = simp bit_or-bitwise (bitwise_digit (λ y. y) max a b)

-- The binary digit of a number at a position.
abbrev pub test_bit : ℕ → ℕ → ℕ
test_bit n zero = n % 2
test_bit n (suc j) = test_bit (n / 2) j

pub test_bit-le : (n j : ℕ) → test_bit n j ≤ 1
test_bit-le n zero = omega arith
test_bit-le n (suc j) = test_bit-le (n / 2) j

pub test_bit-bit_and : (a b j : ℕ) → test_bit (bit_and a b) j ≡ min (test_bit a j) (test_bit b j)
test_bit-bit_and a b zero = omega (arith, bit_and-div a b)
test_bit-bit_and a b (suc j) =
    let e : bit_and a b / 2 ≡ bit_and (a / 2) (b / 2) = omega (arith, bit_and-div a b) in
    rw e (test_bit-bit_and (a / 2) (b / 2) j)

pub test_bit-bit_or : (a b j : ℕ) → test_bit (bit_or a b) j ≡ max (test_bit a j) (test_bit b j)
test_bit-bit_or a b zero = omega (arith, bit_or-div a b)
test_bit-bit_or a b (suc j) =
    let e : bit_or a b / 2 ≡ bit_or (a / 2) (b / 2) = omega (arith, bit_or-div a b) in
    rw e (test_bit-bit_or (a / 2) (b / 2) j)

pub test_bit-zero : (j : ℕ) → test_bit 0 j ≡ 0
test_bit-zero zero = refl
test_bit-zero (suc j) = test_bit-zero j

-- ~m on k bits
pub test_bit-complement :
    (k m j : ℕ) → m < 2 ^ k → test_bit (2 ^ k - 1 - m) j ≡ (if ltb j k then 1 - test_bit m j else 0)
test_bit-complement zero m j h =
    let e : 2 ^ 0 - 1 - m ≡ 0 = omega arith in rw e (ground (arith, test_bit-zero j))
test_bit-complement (suc k) m zero h = ground (arith, pow-suc 2 k, one-le-pow k 2)
test_bit-complement (suc k) m (suc j) h =
    let e : (2 ^ suc k - 1 - m) / 2 ≡ 2 ^ k - 1 - m / 2 =
      omega (arith, pow-suc 2 k, one-le-pow k 2) in
    rw e (ground (arith, pow-suc 2 k, test_bit-complement k (m / 2) j))

-- Numbers with the same digits are equal, so a law of digits is a law of words.
pub test_bit_ext :
    (k a b : ℕ) → a < 2 ^ k → b < 2 ^ k → ((j : ℕ) → test_bit a j ≡ test_bit b j) → a ≡ b
test_bit_ext zero a b ha hb h = omega arith
test_bit_ext (suc k) a b ha hb h = omega (
  arith,
  h 0,
  test_bit_ext k (a / 2) (b / 2) (omega (arith, pow-suc 2 k)) (omega (arith, pow-suc 2 k))
      (λ j. h (suc j)),
)

bit_and-le_fuel : (n a b : ℕ) → a ≤ n → bit_and a b ≤ b
bit_and-le_fuel n zero b h = omega (arith, bit_and-bitwise 0 b)
bit_and-le_fuel zero (suc a) b h = absurd (omega arith)
bit_and-le_fuel (suc n) (suc a) b h =
    omega (arith, bit_and-div (suc a) b, bit_and-le_fuel n (suc a / 2) (b / 2) (omega arith))

-- A mask bounds what it lets through.
pub bit_and-le_right : (a b : ℕ) → bit_and a b ≤ b
bit_and-le_right a b = bit_and-le_fuel a a b (omega arith)
