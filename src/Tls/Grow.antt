-- ===== src/Tls/Grow.antt =====
-- `ensureGlobalExpansionCapacityLocked` of src/tls.cpp: larger arrays for every active thread, or none.
use wibo.Base.{
  ◌>>=◌, ℕ, List, [], ◌∷◌, Bool, true, false, Option, none, some, leb, min, ◌==◌, if◌then◌else◌,
  zero, suc,
}
use wibo.Base.Maps.{put}
use wibo.Tls.Memory.{Malloc, Arrays, Teb, Tls, allocate_array, free_array, capacity_of}
use wibo.Tls.Capacity.{choose_capacity}

-- `PendingResize`: the thread block, its old array and its new one.
abbrev pub PendingResize : Type 0
PendingResize = ℕ × Option ℕ × ℕ

-- `std::copy_n(src, n, dst)`
abbrev pub copy_slots : ℕ → List ℕ → List ℕ → List ℕ
copy_slots zero src dst = dst
copy_slots (suc n) [] dst = dst
copy_slots (suc n) (v ∷ src) [] = []
copy_slots (suc n) (v ∷ src) (d ∷ dst) = v ∷ copy_slots n src dst

-- Copies the old array, if there is one, into the new one.
unfoldable pub copy_array : Option ℕ → ℕ → Arrays → Option Arrays
copy_array none new m = some m
copy_array (some old) new m = do
  o ← m old
  n ← m new
  some (
      put m new
        (some (record n { slots = copy_slots (min o.capacity n.capacity) o.slots n.slots })))

-- What is left of a failed attempt is given back.
unfoldable pub give_back :
    ℕ → Arrays × Option (List PendingResize) → Option (Arrays × Option (List PendingResize))
give_back new (m, none) = do m' ← free_array new m; some (m', none)
give_back new (m, some pending) = some (m, some pending)

abbrev pub also :
    PendingResize → Arrays × Option (List PendingResize) → Arrays × Option (List PendingResize)
also p (m, none) = (m, none)
also p (m, some pending) = (m, some (p ∷ pending))

-- The first loop over the active thread blocks: the memory after it, and the pending changes unless an
-- allocation failed, when each array allocated before is freed. `pointer` gives a block's present array.
unfoldable pub prepare :
    Malloc → ℕ → (ℕ → Option ℕ) → List ℕ → Arrays → Option (Arrays × Option (List PendingResize))
prepare malloc target pointer [] m = some (m, some [])
prepare malloc target pointer (tib ∷ tibs) m = do
  current ← capacity_of m (pointer tib)
  elim (leb target current) [
    | true ↦ prepare malloc target pointer tibs m
    | false ↦ elim (allocate_array malloc target m) [
      | none ↦ some (m, none)
      | some (new, m1) ↦ do
        m2 ← copy_array (pointer tib) new m1
        r ← prepare malloc target pointer tibs m2
        give_back new (also (tib, pointer tib, new) r)
    ]
  ]

-- `setExpansionArray`
unfoldable pub set_expansion : (ℕ → Teb) → ℕ → Option ℕ → ℕ → Teb
set_expansion teb tib a = put teb tib (record (teb tib) { expansion = a })

-- The second loop.
unfoldable pub install : List PendingResize → (ℕ → Teb) → ℕ → Teb
install [] teb = teb
install ((tib, _, new) ∷ pending) teb = install pending (set_expansion teb tib (some new))

-- The third loop.
unfoldable pub free_old : List PendingResize → Arrays → Option Arrays
free_old [] m = some m
free_old ((_, none, _) ∷ pending) m = free_old pending m
free_old ((_, some old, _) ∷ pending) m = do m' ← free_array old m; free_old pending m'

-- What follows the first loop.
unfoldable pub finish_growth : ℕ → Tls → Arrays × Option (List PendingResize) → Option (Bool × Tls)
finish_growth target s (m, none) = some (false, record s { arrays = m })
finish_growth target s (m, some pending) = do
  m' ← free_old pending m
  some (true, record s { teb = install pending s.teb; arrays = m'; expansion_capacity = target })

-- `ensureGlobalExpansionCapacityLocked`
unfoldable pub ensure_expansion : Malloc → ℕ → Tls → Option (Bool × Tls)
ensure_expansion malloc required s =
    let target = choose_capacity s.expansion_capacity required in
    if required == 0
    then some (true, s)
    else if leb required s.expansion_capacity
    then some (true, s)
    else if target == 0
    then some (false, s)
    else (do
      r ← prepare malloc target (λ t. (s.teb t).expansion) s.active s.arrays
      finish_growth target s r)
