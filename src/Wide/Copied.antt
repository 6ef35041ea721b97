-- ===== src/Wide/Copied.antt =====
-- What the copies of src/strutil.cpp write, and a round trip of its conversions.
use wibo.Base.{
  ℕ, zero, suc, ◌+◌, ◌%◌, ◌≤◌, ◌<◌, ◌≡◌, refl, ap, ◌∙◌, List, [], ◌∷◌, ◌++◌, false, none, some,
  arith, ltb, ◌==◌, if◌then◌else◌, min, length, get_elem?,
}
use wibo.Base.Int.{negsuc}
use wibo.Wide.Cells.{Cells, wstrlen}
use wibo.Wide.Copy.{push, wstrcpy, wstrcat, fill_zero, push_counted, counted, copy_n, wstrncpy}
use wibo.Wide.Convert.{narrow_n, wide_string_to_string, widen_n, string_to_wide_string}
use wibo.Wide.Text.{IsText, text, scan_length-text}

-- `r` is `dst` with the first `n` cells replaced by `s` and, where it is shorter, zeros.
abbrev pub Copied : ℕ → List ℕ → Cells → Cells → Type 0
Copied n s dst r =
    (length r ≡ length dst)
    × ((j : ℕ)
        → get_elem? r j ≡ (
            if ltb j n
            then (if ltb j (length s) then get_elem? s j else some 0)
            else get_elem? dst j))

fill_zero-Copied :
    (n : ℕ) (dst : Cells)
    → n ≤ length dst
    → (r : Cells) × ((fill_zero dst n ≡ some r) × Copied n [] dst r)
unfolding fill_zero
fill_zero-Copied zero dst h = (dst, (refl, (refl, λ j. ground arith)))
fill_zero-Copied (suc n) [] h = absurd (omega arith)
fill_zero-Copied (suc n) (d ∷ dst) h =
    let (r, (e, (l, p))) = fill_zero-Copied n dst (omega arith) in
    (0 ∷ r, (ap (push 0) e, (omega arith, elems r dst p)))
  where
    elems :
        (r dst : Cells)
        → ((j : ℕ)
            → get_elem? r j
              ≡ (if ltb j n then (if ltb j 0 then none else some 0) else get_elem? dst j))
        → (j : ℕ)
        → get_elem? (0 ∷ r) j
          ≡ (if ltb j (suc n) then (if ltb j 0 then none else some 0) else get_elem? (d ∷ dst) j)
    elems r dst p zero = ground arith
    elems r dst p (suc j) = ground (arith, p j)

copy_n-Copied :
    (n : ℕ) (s : List ℕ) (y dst : Cells)
    → IsText s
    → n ≤ length dst
    → (r : Cells) × ((copy_n dst (text s y) n ≡ some (min n (length s), r)) × Copied n s dst r)
unfolding copy_n
copy_n-Copied zero s y dst hs h =
    (dst, (ap some (ap (λ i. (i, dst)) (omega arith)), (refl, λ j. ground arith)))
copy_n-Copied (suc n) s y [] hs h = absurd (omega arith)
copy_n-Copied (suc n) [] y (d ∷ dst) hs h =
    let (r, (e, c)) = fill_zero-Copied (suc n) (d ∷ dst) h in
    (r, (ap counted e ∙ ap (λ i. some (i, r)) (omega arith), c))
copy_n-Copied (suc n) (c ∷ s) y (d ∷ dst) (q, hs) h =
    let z : (c == 0) ≡ false = grind arith in
    let (r, (e, (l, p))) = copy_n-Copied n s y dst hs (omega arith) in
    (
      c ∷ r,
      (
        rw z (ap (push_counted c) e ∙ ap (λ i. some (i, c ∷ r)) (omega arith)),
        (omega arith, elems r dst p),
      ),
    )
  where
    elems :
        (r dst : Cells)
        → ((j : ℕ)
            → get_elem? r j ≡ (
                if ltb j n
                then (if ltb j (length s) then get_elem? s j else some 0)
                else get_elem? dst j))
        → (j : ℕ)
        → get_elem? (c ∷ r) j ≡ (
            if ltb j (suc n)
            then (if ltb j (suc (length s)) then get_elem? (c ∷ s) j else some 0)
            else get_elem? (d ∷ dst) j)
    elems r dst p zero = ground arith
    elems r dst p (suc j) = ground (arith, p j)

-- wstrncpy of a terminated string into a buffer of at least `n` cells writes within the first `n`, copies
-- the string as far as it fits there, fills the rest of them with zeros, and returns how many it copied.
pub wstrncpy-Copied :
    (n : ℕ) (s : List ℕ) (y dst : Cells)
    → IsText s
    → n ≤ length dst
    → (r : Cells) × ((wstrncpy (some dst) (some (text s y)) n ≡ some (min n (length s), some r))
        × Copied n s dst r)
unfolding wstrncpy
wstrncpy-Copied n s y dst hs h =
    let (r, (e, c)) = copy_n-Copied n s y dst hs h in (r, (rw (wstrncpy, e) refl, c))

wstrcpy-text :
    (s : List ℕ) (y dest : Cells)
    → IsText s
    → length s < length dest
    → (rest : Cells) × ((wstrcpy dest (text s y) ≡ some (text s rest))
        × (length rest + length s + 1 ≡ length dest))
unfolding wstrcpy
wstrcpy-text s y [] hs h = absurd (omega arith)
wstrcpy-text [] y (d ∷ dest) hs h = (dest, (refl, omega arith))
wstrcpy-text (c ∷ s) y (d ∷ dest) (q, hs) h =
    let z : (c == 0) ≡ false = grind arith in
    let (rest, (e, l)) = wstrcpy-text s y dest hs (omega arith) in
    (rest, (rw z (ap (push c) e), omega arith))

-- wstrcat of two terminated strings into a buffer with room for both leaves their concatenation there,
-- terminated, and the buffer's length as it was.
pub wstrcat-text :
    (d s : List ℕ) (room y : Cells)
    → IsText d
    → IsText s
    → length s ≤ length room
    → (rest : Cells) × ((wstrcat (text d room) (text s y) ≡ some (text (d ++ s) rest))
        × (length rest + length s ≡ length room))
unfolding wstrcat
wstrcat-text [] s room y hd hs h =
    let (rest, (e, l)) = wstrcpy-text s y (0 ∷ room) hs (omega arith) in (rest, (e, omega arith))
wstrcat-text (c ∷ d) s room y (q, hd) hs h =
    let z : (c == 0) ≡ false = grind arith in
    let (rest, (e, l)) = wstrcat-text d s room y hd hs h in (rest, (rw z (ap (push c) e), l))

-- Characters of a `std::string` are bytes.
abbrev pub IsBytes : List ℕ → Type 0
IsBytes [] = ◌≡◌ {A = ℕ} 0 0
IsBytes (c ∷ s) = (c < 256) × IsBytes s

widen_n-narrow_n :
    (s : List ℕ) (y : Cells)
    → IsBytes s
    → (widen_n (s ++ y) (length s) ≡ some (text s [])) × (narrow_n (text s []) (length s) ≡ some s)
unfolding widen_n narrow_n
widen_n-narrow_n [] y h = (refl, refl)
widen_n-narrow_n (c ∷ s) y (b, h) =
    let (p, q) = widen_n-narrow_n s y h in
    let m : c % 256 ≡ c = omega arith in (rw p refl, rw (q, m) refl)

-- A byte string without zeros comes back from the wide string made of it, both measured by their
-- terminators.
pub wide_string_to_string-string_to_wide_string :
    (s : List ℕ) (y : Cells)
    → IsBytes s
    → IsText s
    → (w : Cells) × ((string_to_wide_string (some (text s y)) none ≡ some w)
        × (wide_string_to_string (some w) (negsuc 0) ≡ some s))
unfolding string_to_wide_string wide_string_to_string wstrlen
wide_string_to_string-string_to_wide_string s y b h =
    let (p, q) = widen_n-narrow_n s (0 ∷ y) b in
    (
      text s [],
      (
        rw (string_to_wide_string, scan_length-text s y h) p,
        rw (wide_string_to_string, wstrlen, scan_length-text s [] h) q,
      ),
    )
