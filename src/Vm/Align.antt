-- ===== src/Vm/Align.antt =====
-- Addresses, alignment and the limits of the guest address space (src/heap.cpp), on Linux with 64-bit
-- `uintptr_t` and pages of 4096 bytes.
use Prim.Native.Nat.{bit_and}
use wibo.Base.{
  ℕ, zero, suc, ◌+◌, ◌-◌, ◌*◌, ◌/◌, ◌%◌, ◌^◌, ◌≤◌, ◌<◌, ◌≡◌, ◌∙◌, Bool, arith, ltb, ◌==◌,
  if◌then◌else◌,
}
use native.Mathlib.Nat.{pow-suc, one-le-pow}
use wibo.Base.Bits.{bit_and-div, bit_and-le_right}

abbrev pub low_memory_start : ℕ
low_memory_start = 0x00110000

abbrev pub top_down_start : ℕ
top_down_start = 0x7F000000

abbrev pub two_gb : ℕ
two_gb = 0x80000000

abbrev pub virtual_allocation_granularity : ℕ
virtual_allocation_granularity = 64 * 1024

abbrev pub page_size : ℕ
page_size = 4096

abbrev pub uintptr_max : ℕ
uintptr_max = 2 ^ 64 - 1

-- Addition of `uintptr_t`.
abbrev pub add_ptr : ℕ → ℕ → ℕ
add_ptr a b = (a + b) % 2 ^ 64

-- `value & ~mask` for mask = alignment - 1
unfoldable pub align_down : ℕ → ℕ → ℕ
align_down value alignment = bit_and value (uintptr_max - (alignment - 1))

unfoldable pub align_up : ℕ → ℕ → ℕ
align_up value alignment =
    let mask = alignment - 1 in
    if mask == uintptr_max
    then value
    else if ltb (uintptr_max - mask) value
    then uintptr_max
    else bit_and (add_ptr value mask) (uintptr_max - mask)

unfoldable pub add_overflows : ℕ → ℕ → Bool
add_overflows base amount = ltb (uintptr_max - amount) base

-- All but the last `k` digits.
abbrev clear_low : ℕ → ℕ → ℕ
clear_low zero v = v
clear_low (suc k) v = clear_low k (v / 2) * 2

bit_and-ones : (n v : ℕ) → v < 2 ^ n → bit_and v (2 ^ n - 1) ≡ v
bit_and-ones zero v h = omega (arith, bit_and-le_right v 0)
bit_and-ones (suc n) v h =
    let e : (2 ^ suc n - 1) / 2 ≡ 2 ^ n - 1 = omega (arith, pow-suc 2 n, one-le-pow n 2) in
    let d : (2 ^ suc n - 1) % 2 ≡ 1 = omega (arith, pow-suc 2 n, one-le-pow n 2) in
    rw (bit_and-div v (2 ^ suc n - 1), e, d, bit_and-ones n (v / 2) (omega (arith, pow-suc 2 n)))
      (omega arith)

bit_and-clear_low : (k n v : ℕ) → k ≤ n → v < 2 ^ n → bit_and v (2 ^ n - 2 ^ k) ≡ clear_low k v
bit_and-clear_low zero n v l h = bit_and-ones n v h
bit_and-clear_low (suc k) zero v l h = absurd (omega arith)
bit_and-clear_low (suc k) (suc n) v l h =
    let e : (2 ^ suc n - 2 ^ suc k) / 2 ≡ 2 ^ n - 2 ^ k = omega (arith, pow-suc 2 n, pow-suc 2 k) in
    let d : (2 ^ suc n - 2 ^ suc k) % 2 ≡ 0 = omega (arith, pow-suc 2 n, pow-suc 2 k) in
    rw
      (
        bit_and-div v (2 ^ suc n - 2 ^ suc k),
        e,
        d,
        bit_and-clear_low k n (v / 2) (omega arith) (omega (arith, pow-suc 2 n)),
      )
      (omega arith)

clear_low_page : (v : ℕ) → clear_low 12 v ≡ v / 4096 * 4096
clear_low_page v = omega arith

clear_low_granularity : (v : ℕ) → clear_low 16 v ≡ v / 65536 * 65536
clear_low_granularity v = omega arith

-- The bit masks round down and up to a whole number of pages.
pub align_down_page : (v : ℕ) → v < 2 ^ 64 → align_down v page_size ≡ v / 4096 * 4096
unfolding align_down
align_down_page v h = bit_and-clear_low 12 64 v (omega arith) h ∙ clear_low_page v

pub align_down_granularity :
    (v : ℕ) → v < 2 ^ 64 → align_down v virtual_allocation_granularity ≡ v / 65536 * 65536
unfolding align_down
align_down_granularity v h = bit_and-clear_low 16 64 v (omega arith) h ∙ clear_low_granularity v

pub align_up_page : (v : ℕ) → v < 2 ^ 63 → align_up v page_size ≡ (v + 4095) / 4096 * 4096
unfolding align_up
align_up_page v h =
    let m : ℕ = add_ptr v 4095 in
    let e : bit_and m (2 ^ 64 - 2 ^ 12) ≡ m / 4096 * 4096 =
      bit_and-clear_low 12 64 m (omega arith) (omega arith) ∙ clear_low_page m in
    ground (arith, e)

pub align_up_granularity :
    (v : ℕ) → v < 2 ^ 63 → align_up v virtual_allocation_granularity ≡ (v + 65535) / 65536 * 65536
unfolding align_up
align_up_granularity v h =
    let m : ℕ = add_ptr v 65535 in
    let e : bit_and m (2 ^ 64 - 2 ^ 16) ≡ m / 65536 * 65536 =
      bit_and-clear_low 16 64 m (omega arith) (omega arith) ∙ clear_low_granularity m in
    ground (arith, e)
