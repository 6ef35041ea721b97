-- ===== src/Vm/Mapping.antt =====
-- `g_mappings` of src/heap.cpp once it is set up: what is mapped below 2 GiB, by address. A `std::map`
-- is a list in the order of its keys.
use wibo.Base.{ℕ, ◌-◌, List, [], ◌∷◌, Bool, true, false, ltb, leb, ◌==◌, if◌then◌else◌, u32}
use wibo.Vm.Align.{add_ptr, add_overflows}
use wibo.Vm.Types.{Info}

abbrev pub Mappings : Type 0
Mappings = List (ℕ × Info)

-- `(*g_mappings)[key] = info`
unfoldable pub put_mapping : ℕ → Info → Mappings → Mappings
put_mapping key info [] = (key, info) ∷ []
put_mapping key info ((k, i) ∷ ms) =
    let rest = put_mapping key info ms in
    if ltb key k
    then (key, info) ∷ ((k, i) ∷ ms)
    else if key == k
    then (key, info) ∷ ms
    else (k, i) ∷ rest

-- `eraseGuestMappingLocked`
unfoldable pub erase_mapping : ℕ → Mappings → Mappings
erase_mapping key [] = []
erase_mapping key ((k, i) ∷ ms) = if key == k then ms else (k, i) ∷ erase_mapping key ms

-- `recordGuestMappingLocked`. Guest pointers and sizes have 32 bits.
unfoldable pub record_mapping : ℕ → ℕ → ℕ → ℕ → ℕ → ℕ → Mappings → Mappings
record_mapping base size allocation_protect state protect type = put_mapping base (record {
  base_address = u32 base;
  allocation_base = u32 base;
  allocation_protect = allocation_protect;
  region_size = u32 size;
  state = state;
  protect = protect;
  type = type;
})

-- `upper_bound(base)`, one back unless it is the beginning.
unfoldable pub from_floor : ℕ → Mappings → Mappings
from_floor base [] = []
from_floor base (m ∷ []) = m ∷ []
from_floor base ((k, i) ∷ ((k', j) ∷ ms)) =
    let rest = from_floor base ((k', j) ∷ ms) in
    if leb k' base then rest else (k, i) ∷ ((k', j) ∷ ms)

-- The loop of `overlapsExistingMappingLocked`.
unfoldable pub overlaps_from : ℕ → ℕ → Mappings → Bool
overlaps_from base end [] = false
overlaps_from base end ((k, i) ∷ ms) =
    let rest = overlaps_from base end ms in
    if i.region_size == 0
    then rest
    else if leb (add_ptr i.base_address i.region_size) base
    then rest
    else if leb end i.base_address
    then false
    else true

-- `overlapsExistingMappingLocked`
unfoldable pub overlaps_existing : ℕ → ℕ → Mappings → Bool
overlaps_existing base length ms =
    if length == 0
    then false
    else if add_overflows base (length - 1)
    then true
    else overlaps_from base (add_ptr base length) (from_floor base ms)
