-- ===== src/Wide/Search.antt =====
-- The searches of src/strutil.cpp. A pointer into the string is an offset from its start.
use wibo.Base.{ℕ, suc, [], ◌∷◌, Bool, true, false, Option, none, some, ◌==◌, if◌then◌else◌}
use wibo.Wide.Cells.{Cells}

-- The inner loop of `wstrstr`: whether it stops at the end of `src`. It reads `*d`, then `*s`.
unfoldable pub matches : Cells → Cells → Option Bool
matches [] s = none
matches (c ∷ d) [] = none
matches (c ∷ d) (e ∷ s) =
    let rest = matches d s in
    if c == 0
    then some (e == 0)
    else if e == 0
    then some true
    else if c == e
    then rest
    else some false

-- An offset from one cell further.
abbrev pub shift : Option (Option ℕ) → Option (Option ℕ)
shift none = none
shift (some none) = some none
shift (some (some i)) = some (some (suc i))

-- The outer loop of `wstrstr`.
unfoldable pub find_from : Cells → Cells → Option (Option ℕ)
find_from [] src = none
find_from (c ∷ dest) src =
    let rest = find_from dest src in
    if c == 0 then some none else elim (matches (c ∷ dest) src) [
      | none ↦ none
      | some hit ↦ if hit then some (some 0) else shift rest
    ]

-- `wstrstr`
unfoldable pub wstrstr : Cells → Cells → Option (Option ℕ)
wstrstr dest [] = none
wstrstr dest (e ∷ src) = if e == 0 then some (some 0) else find_from dest (e ∷ src)

-- The loop of `wstrchr`, with what follows it.
unfoldable pub find_char : Cells → ℕ → Option (Option ℕ)
find_char [] c = none
find_char (d ∷ str) c =
    let rest = find_char str c in
    if d == 0
    then (if c == 0 then some (some 0) else some none)
    else if d == c
    then some (some 0)
    else shift rest

-- `wstrchr`, of a pointer that may be null.
unfoldable pub wstrchr : Option Cells → ℕ → Option (Option ℕ)
wstrchr none c = some none
wstrchr (some str) c = find_char str c

-- The loop of `wstrrchr` from offset `i` on, with what follows it.
unfoldable pub find_last_char : Cells → ℕ → ℕ → Option ℕ → Option (Option ℕ)
find_last_char [] c i last = none
find_last_char (d ∷ str) c i last =
    if d == 0
    then some (if c == 0 then some i else last)
    else find_last_char str c (suc i) (if d == c then some i else last)

-- `wstrrchr`
unfoldable pub wstrrchr : Option Cells → ℕ → Option (Option ℕ)
wstrrchr none c = some none
wstrrchr (some str) c = find_last_char str c 0 none
