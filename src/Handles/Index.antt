-- ===== src/Handles/Index.antt =====
-- Handle values and slot indices: the constants and `indexOf`, `makeHandle` and `isPseudo` of
-- src/handles.cpp.
use wibo.Base.{
  ℕ, ◌≤◌, ◌+◌, ◌-◌, ◌*◌, ◌<◌, ◌^◌, ◌≡◌, Bool, false, not, ◌||◌, arith, ltb, leb, ◌==◌,
  if◌then◌else◌, u32, u32_max, low_bits, shr,
}

abbrev pub handle_align_shift : ℕ
handle_align_shift = 2

-- The last index whose handle is below 0x8000.
abbrev pub compat_max_index : ℕ
compat_max_index = shr 0x7FFF handle_align_shift - 1

abbrev pub quarantine_len : ℕ
quarantine_len = 64

-- A handle is the 32-bit pattern of the source's `int`.
unfoldable pub index_of : ℕ → ℕ
index_of h =
    if h == 0 || not (low_bits h handle_align_shift == 0)
    then u32_max
    else shr h handle_align_shift - 1

unfoldable pub make_handle : ℕ → ℕ
make_handle index = u32 (u32 (index + 1) * 2 ^ handle_align_shift)

-- `int32_t(h) < 0`
unfoldable pub is_pseudo : ℕ → Bool
is_pseudo h = leb (2 ^ 31) h

-- Every index that a table of fewer than 2 ^ 29 - 1 slots holds has a handle of its own, which is
-- neither 0 nor a pseudo-handle, and which leads back to it.
pub make_handle_lem :
    (i : ℕ)
    → i < 2 ^ 29 - 1
    → (index_of (make_handle i) ≡ i)
      × (is_pseudo (make_handle i) ≡ false)
      × (0 < make_handle i)
      × (make_handle i < 2 ^ 31)
unfolding index_of make_handle is_pseudo
make_handle_lem i h = ground arith

-- Conversely a value that leads to an index below the table's limit is that index's handle.
pub make_handle-index_of :
    (h : ℕ) → h < 2 ^ 32 → index_of h < 2 ^ 29 - 1 → make_handle (index_of h) ≡ h
unfolding index_of make_handle
make_handle-index_of h b l = ground arith

-- The handles of the indices up to `compat_max_index`, and no others, are below 0x8000.
pub make_handle-compat :
    (i : ℕ) → i < 2 ^ 29 - 1 → (leb i compat_max_index) ≡ (ltb (make_handle i) 0x8000)
unfolding make_handle
make_handle-compat i h = ground arith

pub make_handle-lt_compat : (i : ℕ) → i ≤ compat_max_index → make_handle i < 0x8000
unfolding make_handle
make_handle-lt_compat i h = omega arith
