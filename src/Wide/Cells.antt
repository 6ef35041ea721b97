-- ===== src/Wide/Cells.antt =====
-- Pointers into wide strings (src/strutil.cpp): a pointer is the list of the 16-bit cells from there to the
-- end of its allocation, so that a read past the end is `none`, a fault. Lengths and comparisons.
use wibo.Base.{ℕ, zero, suc, List, [], ◌∷◌, Option, none, some, ltb, ◌==◌, if◌then◌else◌}
use wibo.Base.Int.{ℤ, pos, negsuc}

abbrev pub Cells : Type 0
Cells = List ℕ

-- `some (suc n)` for `some n`
abbrev pub one_more : Option ℕ → Option ℕ
one_more none = none
one_more (some n) = some (suc n)

-- The loop of `wstrlen`.
unfoldable pub scan_length : Cells → Option ℕ
scan_length [] = none
scan_length (c ∷ cs) = if c == 0 then some 0 else one_more (scan_length cs)

-- `wstrlen`, of a pointer that may be null.
unfoldable pub wstrlen : Option Cells → Option ℕ
wstrlen none = some 0
wstrlen (some str) = scan_length str

-- The loop of `wstrnlen`.
unfoldable pub scan_n_length : ℕ → Cells → Option ℕ
scan_n_length zero cs = some 0
scan_n_length (suc n) [] = none
scan_n_length (suc n) (c ∷ cs) = if c == 0 then some 0 else one_more (scan_n_length n cs)

-- `wstrnlen`
unfoldable pub wstrnlen : Option Cells → ℕ → Option ℕ
wstrnlen none n = some 0
wstrnlen (some str) n = scan_n_length n str

-- `wstrncmp`
unfoldable pub wstrncmp : Cells → Cells → ℕ → Option ℤ
wstrncmp s t zero = some (pos 0)
wstrncmp [] t (suc n) = none
wstrncmp (c ∷ s) [] (suc n) = none
wstrncmp (c ∷ s) (d ∷ t) (suc n) =
    let rest = wstrncmp s t n in
    if c == d then rest else if ltb d c then some (pos 1) else some (negsuc 0)
