-- ===== src/Tls/Modules.antt =====
-- The arrays of the modules in src/tls.cpp, and how a thread block enters and leaves.
use wibo.Base.{
  ◌>>=◌, ℕ, ◌+◌, List, [], ◌∷◌, ◌++◌, Bool, true, false, not, ◌&&◌, ◌||◌, Option, none, some, ltb,
  leb, ◌==◌, if◌then◌else◌,
}
use wibo.Base.Maps.{put}
use wibo.Tls.Memory.{Malloc, Arrays, Teb, Tls, allocate_array, free_array, capacity_of, write_slot}
use wibo.Tls.Capacity.{double_past}
use wibo.Tls.Grow.{PendingResize, copy_array, set_expansion}
use wibo.Tls.Slots.{write_if_there}

-- `getModuleArray`: what the map has, else the array of the block's pointer, which enters the map.
unfoldable pub get_module_array : ℕ → Tls → Option ℕ × Tls
get_module_array tib s = if tib == 0 then (none, s) else elim (s.module_arrays tib) [
  | some a ↦ (some a, s)
  | none ↦ elim (s.teb tib).storage_pointer [
    | none ↦ (none, s)
    | some a ↦ (some a, record s { module_arrays = put s.module_arrays tib (some a) })
  ]
]

-- `ThreadLocalStoragePointer = toGuestPtr(array->slots)`
unfoldable pub set_pointer : (ℕ → Teb) → ℕ → Option ℕ → ℕ → Teb
set_pointer teb tib a = put teb tib (record (teb tib) { storage_pointer = a })

-- `queueOldModuleArray`
unfoldable pub queue_old : ℕ → Option ℕ → (ℕ → List ℕ) → ℕ → List ℕ
queue_old tib none g = g
queue_old tib (some a) g = put g tib (g tib ++ (a ∷ []))

-- The second loop of `ensureModuleArrayCapacityLocked`.
unfoldable pub install_modules : List PendingResize → Tls → Tls
install_modules [] s = s
install_modules ((tib, old, new) ∷ pending) s = install_modules pending (record s {
  module_arrays = put s.module_arrays tib (some new);
  teb = set_pointer s.teb tib (some new);
  module_garbage = queue_old tib old s.module_garbage;
})

-- Adds a pending change; where there are none since the loop failed, its new array is given back.
unfoldable pub keep_pending :
    PendingResize → Tls × Option (List PendingResize) → Option (Tls × Option (List PendingResize))
keep_pending (tib, old, new) (s, none) = do
  m ← free_array new s.arrays
  some (record s { arrays = m }, none)
keep_pending p (s, some pending) = some (s, some (p ∷ pending))

-- The first loop, with the array that `getModuleArray` answers.
unfoldable pub prepare_modules :
    Malloc → ℕ → List ℕ → Tls → Option (Tls × Option (List PendingResize))
prepare_modules malloc target [] s = some (s, some [])
prepare_modules malloc target (tib ∷ tibs) s =
    let (old, s1) = get_module_array tib s in
    (do
      current ← capacity_of s1.arrays old
      elim (leb target current) [
        | true ↦ prepare_modules malloc target tibs s1
        | false ↦ elim (allocate_array malloc target s1.arrays) [
          | none ↦ some (s1, none)
          | some (new, m1) ↦ do
            m2 ← copy_array old new m1
            r ← prepare_modules malloc target tibs (record s1 { arrays = m2 })
            keep_pending (tib, old, new) r
        ]
      ])

-- What follows the first loop.
unfoldable pub finish_modules : ℕ → Tls × Option (List PendingResize) → Bool × Tls
finish_modules target (s, none) = (false, s)
finish_modules target (s, some pending) =
    (true, record (install_modules pending s) { module_capacity = target })

-- `ensureModuleArrayCapacityLocked`
unfoldable pub ensure_modules : Malloc → ℕ → Tls → Option (Bool × Tls)
ensure_modules malloc required s =
    let target = double_past 2 (if s.module_capacity == 0 then 1 else s.module_capacity) required in
    if required == 0
    then some (true, s)
    else if leb required s.module_capacity
    then some (true, s)
    else (do r ← prepare_modules malloc target s.active s; some (finish_modules target r))

-- The end of `setModulePointer`.
unfoldable pub write_pointer : ℕ → ℕ → ℕ → Option ℕ × Tls → Option (Bool × Tls)
write_pointer tib index value (none, s) = some (false, s)
write_pointer tib index value (some a, s) = do
  c ← capacity_of s.arrays (some a)
  elim (leb c index) [
    | true ↦ some (false, s)
    | false ↦ do
      m ← write_slot s.arrays a index value
      some (true, record s { arrays = m; teb = set_pointer s.teb tib (some a) })
  ]

-- `setModulePointer`
unfoldable pub set_module_pointer : Malloc → ℕ → ℕ → ℕ → Tls → Option (Bool × Tls)
set_module_pointer malloc tib index value s = if tib == 0 then some (false, s) else (do
  r ← ensure_modules malloc (index + 1) s
  elim r.0 [
    | false ↦ some (false, r.1)
    | true ↦ write_pointer tib index value (get_module_array tib r.1)
  ])

-- `clearModulePointer`
unfoldable pub clear_module_pointer : ℕ → ℕ → Tls → Option Tls
clear_module_pointer tib index s = if tib == 0 then some s else (do
  m ← write_if_there (get_module_array tib s).1.arrays (get_module_array tib s).0 index 0
  some (record (get_module_array tib s).1 { arrays = m }))

abbrev pub member : ℕ → List ℕ → Bool
member t [] = false
member t (u ∷ us) = if u == t then true else member t us

-- The first allocation of `initializeTib`.
unfoldable pub start_expansion : Malloc → ℕ → Tls → Tls
start_expansion malloc tib s = elim (allocate_array malloc s.expansion_capacity s.arrays) [
  | none ↦ s
  | some (a, m) ↦ record s { teb = set_expansion s.teb tib (some a); arrays = m }
]

-- The second one.
unfoldable pub start_modules : Malloc → ℕ → Tls → Tls
start_modules malloc tib s = elim (allocate_array malloc s.module_capacity s.arrays) [
  | none ↦ s
  | some (a, m) ↦ record s {
    teb = set_pointer s.teb tib (some a);
    module_arrays = put s.module_arrays tib (some a);
    arrays = m;
  }
]

abbrev pub is_null : Option ℕ → Bool
is_null none = true
is_null (some _) = false

-- `initializeTib`
unfoldable pub initialize_tib : Malloc → ℕ → Tls → Tls
initialize_tib malloc tib s =
    let s1 : Tls = record s { active = s.active ++ (tib ∷ []) } in
    let s2 =
      if ltb 0 s1.expansion_capacity && is_null (s1.teb tib).expansion
      then start_expansion malloc tib s1
      else s1 in
    let found = get_module_array tib s2 in
    if (tib == 0) || member tib s.active
    then s
    else if not (ltb 0 s2.module_capacity)
    then s2
    else if is_null found.0
    then start_modules malloc tib found.1
    else found.1

-- Frees the arrays of a list.
unfoldable pub free_all : List ℕ → Arrays → Option Arrays
free_all [] m = some m
free_all (a ∷ rest) m = do m' ← free_array a m; free_all rest m'

-- Frees the array of a pointer that may be null.
unfoldable pub free_pointed : Option ℕ → Arrays → Option Arrays
free_pointed none m = some m
free_pointed (some a) m = free_array a m

-- `g_activeTibs.erase(it)`
unfoldable pub erase_first : ℕ → List ℕ → List ℕ
erase_first t [] = []
erase_first t (u ∷ us) = if u == t then us else u ∷ erase_first t us

-- `cleanupTib`
unfoldable pub cleanup_tib : ℕ → Tls → Option Tls
cleanup_tib tib s =
    let found = get_module_array tib s in
    if tib == 0 then some s else (do
      m1 ← free_pointed (s.teb tib).expansion s.arrays
      m2 ← free_pointed found.0 m1
      m3 ← free_all (s.module_garbage tib) m2
      some (record s {
        active = erase_first tib s.active;
        module_arrays = put s.module_arrays tib none;
        module_garbage = put s.module_garbage tib [];
        teb = set_pointer (set_expansion s.teb tib none) tib none;
        arrays = m3;
      }))
