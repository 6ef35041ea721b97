-- ===== src/Tls/Memory.antt =====
-- The state of src/tls.cpp: the arrays in guest memory, the thread blocks that point to them, and the
-- file's own variables. Functions return an Option whose `none` is a use of an array that is not allocated
-- or of a slot that it does not have.
use wibo.Base.{
  ℕ, zero, suc, ◌+◌, ◌-◌, ◌*◌, List, [], ◌∷◌, Bool, ◌||◌, Option, none, some, ltb, leb, ◌==◌,
  if◌then◌else◌, length, get_elem?, set,
}
use wibo.Base.Maps.{put}

abbrev pub tls_slot_count : ℕ
tls_slot_count = 64

abbrev pub tls_max_slot_count : ℕ
tls_max_slot_count = 1088

abbrev pub max_expansion_slots : ℕ
max_expansion_slots = tls_max_slot_count - tls_slot_count

abbrev pub invalid_tls_index : ℕ
invalid_tls_index = 0xFFFFFFFF

-- `TlsArray`
pub record TlsArray : Type 0 where
  pub capacity : ℕ
  pub slots : List ℕ

-- The arrays by address.
abbrev pub Arrays : Type 0
Arrays = ℕ → Option TlsArray

-- The fields of TEB that the file uses. A pointer to the slots of an array is its address, `none` for null.
pub record Teb : Type 0 where
  pub tls_slots : List ℕ
  pub expansion : Option ℕ
  pub storage_pointer : Option ℕ

-- The variables of the file, with the thread blocks and the arrays in guest memory.
pub record Tls : Type 0 where
  pub slot_used : List Bool
  pub active : List ℕ
  pub expansion_capacity : ℕ
  pub module_arrays : ℕ → Option ℕ
  pub module_garbage : ℕ → List ℕ
  pub module_capacity : ℕ
  pub teb : ℕ → Teb
  pub arrays : Arrays

-- `guestMalloc`: an address for so many bytes, or `none` when there is no room.
abbrev pub Malloc : Type 0
Malloc = Arrays → ℕ → Option ℕ

abbrev pub zeros : ℕ → List ℕ
zeros zero = []
zeros (suc n) = 0 ∷ zeros n

-- `allocateTlsArray`. The header is the 8 bytes of `capacity`, a slot has 4.
unfoldable pub allocate_array : Malloc → ℕ → Arrays → Option (ℕ × Arrays)
allocate_array malloc capacity m =
    if (capacity == 0) || ltb max_expansion_slots capacity
    then none
    else elim (malloc m (8 + capacity * 4)) [
      | none ↦ none
      | some a ↦ some (a, put m a (some (record { capacity = capacity; slots = zeros capacity })))
    ]

-- `guestFree`
unfoldable pub free_array : ℕ → Arrays → Option Arrays
free_array a m = elim (m a) [ none ↦ none | some _ ↦ some (put m a none) ]

-- What is read at a slot: null past the capacity.
unfoldable pub read_array : TlsArray → ℕ → Option ℕ
read_array arr k = if leb arr.capacity k then some 0 else get_elem? arr.slots k

-- `if (arr && k < arr->capacity) arr->slots[k]`, else null
unfoldable pub read_slot : Arrays → Option ℕ → ℕ → Option ℕ
read_slot m none k = some 0
read_slot m (some a) k = elim (m a) [ none ↦ none | some arr ↦ read_array arr k ]

-- `arr->slots[k] = value`
unfoldable pub write_slot : Arrays → ℕ → ℕ → ℕ → Option Arrays
write_slot m a k value = elim (m a) [
  | none ↦ none
  | some arr ↦
      if ltb k (length arr.slots)
      then some (put m a (some (record arr { slots = set arr.slots k value })))
      else none
]

-- `arr ? arr->capacity : 0`
unfoldable pub capacity_of : Arrays → Option ℕ → Option ℕ
capacity_of m none = some 0
capacity_of m (some a) = elim (m a) [ none ↦ none | some arr ↦ some arr.capacity ]
