-- ===== src/Base/Words.antt =====
-- Machine words as native numbers: the modulus, the largest value, shifts and low bits.
use Prim.Native.Nat.{ℕ, ◌-◌, ◌/◌, ◌%◌, ◌^◌}

-- Casts to `uint16_t` and `uint32_t`.
abbrev pub u16 : ℕ → ℕ
u16 n = n % 2 ^ 16

abbrev pub u32 : ℕ → ℕ
u32 n = n % 2 ^ 32

abbrev pub u32_max : ℕ
u32_max = 2 ^ 32 - 1

-- x & ((1 << k) - 1)
abbrev pub low_bits : ℕ → ℕ → ℕ
low_bits x k = x % 2 ^ k

abbrev pub shr : ℕ → ℕ → ℕ
shr x k = x / 2 ^ k
