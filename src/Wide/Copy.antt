-- ===== src/Wide/Copy.antt =====
-- The copies of src/strutil.cpp: the destination after the call, or `none` where the code reads or writes
-- past the end of an allocation. Source and destination do not overlap.
use wibo.Base.{ℕ, zero, suc, [], ◌∷◌, Option, none, some, ◌==◌, if◌then◌else◌}
use wibo.Wide.Cells.{Cells}

abbrev pub push : ℕ → Option Cells → Option Cells
push c none = none
push c (some cs) = some (c ∷ cs)

-- `wstrcpy`
unfoldable pub wstrcpy : Cells → Cells → Option Cells
wstrcpy dest [] = none
wstrcpy [] (c ∷ src) = none
wstrcpy (d ∷ dest) (c ∷ src) = if c == 0 then some (0 ∷ dest) else push c (wstrcpy dest src)

-- `wstrcat`
unfoldable pub wstrcat : Cells → Cells → Option Cells
wstrcat [] src = none
wstrcat (d ∷ dest) src = if d == 0 then wstrcpy (d ∷ dest) src else push d (wstrcat dest src)

-- The loop of `wstrncat` and the terminator.
unfoldable pub append_n : Cells → Cells → ℕ → Option Cells
append_n [] src n = none
append_n (d ∷ dest) src zero = some (0 ∷ dest)
append_n (d ∷ dest) [] (suc n) = none
append_n (d ∷ dest) (c ∷ src) (suc n) =
    if c == 0 then some (0 ∷ dest) else push c (append_n dest src n)

-- `wstrncat`
unfoldable pub wstrncat : Cells → Cells → ℕ → Option Cells
wstrncat [] src n = none
wstrncat (d ∷ dest) src n =
    if d == 0 then append_n (d ∷ dest) src n else push d (wstrncat dest src n)

-- The second loop of `wstrncpy`.
unfoldable pub fill_zero : Cells → ℕ → Option Cells
fill_zero dst zero = some dst
fill_zero [] (suc n) = none
fill_zero (d ∷ dst) (suc n) = push 0 (fill_zero dst n)

abbrev pub push_counted : ℕ → Option (ℕ × Cells) → Option (ℕ × Cells)
push_counted c none = none
push_counted c (some (i, cs)) = some (suc i, c ∷ cs)

abbrev pub counted : Option Cells → Option (ℕ × Cells)
counted none = none
counted (some cs) = some (0, cs)

-- Both loops of `wstrncpy`.
unfoldable pub copy_n : Cells → Cells → ℕ → Option (ℕ × Cells)
copy_n dst src zero = some (0, dst)
copy_n dst [] (suc n) = none
copy_n [] (c ∷ src) (suc n) = none
copy_n (d ∷ dst) (c ∷ src) (suc n) =
    if c == 0 then counted (fill_zero (d ∷ dst) (suc n)) else push_counted c (copy_n dst src n)

-- `wstrncpy` with pointers that may be null: the count, and the destination where there is one.
unfoldable pub wstrncpy : Option Cells → Option Cells → ℕ → Option (ℕ × Option Cells)
wstrncpy none src n = some (0, none)
wstrncpy (some dst) none n = some (0, some dst)
wstrncpy (some dst) (some src) n = elim (copy_n dst src n) [
  | none ↦ none
  | some (i, cs) ↦ some (i, some cs)
]
