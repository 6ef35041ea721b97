-- ===== src/Tls/Slots.antt =====
-- The slots of src/tls.cpp: `reserveSlot`, `releaseSlot`, `isSlotAllocated`, `getValue` and `setValue`. A
-- thread block is its address, 0 for null; the overloads without one pass the current thread's.
use wibo.Base.{
  ◌>>=◌, ℕ, suc, ◌+◌, ◌-◌, List, [], ◌∷◌, Bool, true, false, not, ◌&&◌, ◌||◌, Option, none, some,
  ltb, leb, ◌==◌, if◌then◌else◌, get_elem?, set,
}
use wibo.Base.Maps.{put}
use wibo.Tls.Memory.{
  Malloc, Arrays, Teb, Tls, tls_slot_count, tls_max_slot_count, invalid_tls_index, read_slot,
  write_slot, capacity_of,
}
use wibo.Tls.Grow.{ensure_expansion}

-- `tib->TlsSlots[index] = value`
unfoldable pub write_teb : (ℕ → Teb) → ℕ → ℕ → ℕ → ℕ → Teb
write_teb teb tib index value =
    put teb tib (record (teb tib) { tls_slots = set (teb tib).tls_slots index value })

-- The first loop of `zeroSlotForAllTibs`.
unfoldable pub zero_direct : List ℕ → ℕ → (ℕ → Teb) → ℕ → Teb
zero_direct [] index teb = teb
zero_direct (tib ∷ tibs) index teb = zero_direct tibs index (write_teb teb tib index 0)

-- A write that is left out where there is no array or the slot is past its capacity.
unfoldable pub write_if_there : Arrays → Option ℕ → ℕ → ℕ → Option Arrays
write_if_there m none k value = some m
write_if_there m (some a) k value = do
  c ← capacity_of m (some a)
  if leb c k then some m else write_slot m a k value

-- The second loop of `zeroSlotForAllTibs`.
unfoldable pub zero_expansion : (ℕ → Teb) → List ℕ → ℕ → Arrays → Option Arrays
zero_expansion teb [] k m = some m
zero_expansion teb (tib ∷ tibs) k m = do
  m' ← write_if_there m (teb tib).expansion k 0
  zero_expansion teb tibs k m'

-- `zeroSlotForAllTibs`
unfoldable pub zero_slot : ℕ → Tls → Option Tls
zero_slot index s =
    if ltb index tls_slot_count
    then some (record s { teb = zero_direct s.active index s.teb })
    else (do
      m ← zero_expansion s.teb s.active (index - tls_slot_count) s.arrays
      some (record s { arrays = m }))

-- The body of `reserveSlot`'s loop once a free slot is found.
unfoldable pub take_slot : Malloc → ℕ → Tls → Option (ℕ × Tls)
take_slot malloc index s = do
  r ←
      (if leb tls_slot_count index
        then ensure_expansion malloc (index - tls_slot_count + 1) s
        else some (true, s))
  elim r.0 [
    | false ↦ some (invalid_tls_index, r.1)
    | true ↦ do
      s' ← zero_slot index (record r.1 { slot_used = set r.1.slot_used index true })
      some (index, s')
  ]

-- The loop of `reserveSlot` from `index` on.
unfoldable pub reserve_from : Malloc → ℕ → List Bool → Tls → Option (ℕ × Tls)
reserve_from malloc index [] s = some (invalid_tls_index, s)
reserve_from malloc index (used ∷ rest) s = elim used [
  | true ↦ reserve_from malloc (suc index) rest s
  | false ↦ take_slot malloc index s
]

-- `reserveSlot`
unfoldable pub reserve_slot : Malloc → Tls → Option (ℕ × Tls)
reserve_slot malloc s = reserve_from malloc 0 s.slot_used s

-- `index < kTlsMaxSlotCount && g_slotUsed[index]`; the array has that many elements.
unfoldable pub is_slot_allocated : ℕ → Tls → Bool
is_slot_allocated index s =
    ltb index tls_max_slot_count
    && (elim (get_elem? s.slot_used index) [ none ↦ false | some used ↦ used ])

-- `releaseSlot`
unfoldable pub release_slot : ℕ → Tls → Option (Bool × Tls)
release_slot index s =
    if leb tls_max_slot_count index
    then some (false, s)
    else if not (is_slot_allocated index s)
    then some (false, s)
    else (do
      s' ← zero_slot index (record s { slot_used = set s.slot_used index false })
      some (true, s'))

-- `getValue`
unfoldable pub get_value : ℕ → ℕ → Tls → Option ℕ
get_value tib index s =
    if (tib == 0) || leb tls_max_slot_count index
    then some 0
    else if ltb index tls_slot_count
    then get_elem? (s.teb tib).tls_slots index
    else read_slot s.arrays (s.teb tib).expansion (index - tls_slot_count)

-- The end of `setValue`, on the array as it is then.
unfoldable pub set_expansion_value : ℕ → ℕ → ℕ → Tls → Option (Bool × Tls)
set_expansion_value tib k value s = elim (s.teb tib).expansion [
  | none ↦ some (false, s)
  | some a ↦ do
    c ← capacity_of s.arrays (some a)
    elim (leb c k) [
      | true ↦ some (false, s)
      | false ↦ do m ← write_slot s.arrays a k value; some (true, record s { arrays = m })
    ]
]

-- `setValue`
unfoldable pub set_value : Malloc → ℕ → ℕ → ℕ → Tls → Option (Bool × Tls)
set_value malloc tib index value s =
    let k = index - tls_slot_count in
    if (tib == 0) || leb tls_max_slot_count index
    then some (false, s)
    else if ltb index tls_slot_count
    then some (true, record s { teb = write_teb s.teb tib index value })
    else (do
      c ← capacity_of s.arrays (s.teb tib).expansion
      r ← (if leb c k then ensure_expansion malloc (k + 1) s else some (true, s))
      elim r.0 [ false ↦ some (false, r.1) | true ↦ set_expansion_value tib k value r.1 ])
