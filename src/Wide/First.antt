-- ===== src/Wide/First.antt =====
-- `wstrstr` of src/strutil.cpp finds the first occurrence.
use wibo.Base.{
  ℕ, zero, suc, ◌<◌, ◌≡◌, inl, inr, refl, ap, ◌∙◌, List, [], ◌∷◌, false, Option, none, some, arith,
  ◌==◌, length, Bool-cases,
}
use wibo.Wide.Cells.{Cells}
use wibo.Wide.Search.{matches, shift, find_from, wstrstr}
use wibo.Wide.Text.{IsText, text, OccursAt, OccursAt-shift, First, is_prefix, is_prefix-OccursAt}

-- On two strings the inner loop tells whether the one starts with the other.
matches-is_prefix :
    (s d : List ℕ) (x y : Cells)
    → IsText s
    → IsText d
    → matches (text d x) (text s y) ≡ some (is_prefix s d)
unfolding matches
matches-is_prefix [] [] x y hs hd = refl
matches-is_prefix [] (c ∷ d) x y hs (p, hd) = let z : (c == 0) ≡ false = grind arith in rw z refl
matches-is_prefix (e ∷ s) [] x y (q, hs) hd = let z : (e == 0) ≡ false = grind arith in rw z refl
matches-is_prefix (e ∷ s) (c ∷ d) x y (q, hs) (p, hd) =
    let z : (c == 0) ≡ false = grind arith in
    let w : (e == 0) ≡ false = grind arith in
    elim (Bool-cases (c == e)) [
      | inl t ↦ rw (z, w, t) (matches-is_prefix s d x y hs hd)
      | inr f ↦ rw (z, w, f) refl
    ]

-- An occurrence with one more character in front is one without it, a step earlier.
behind :
    (s d : List ℕ) (c i : ℕ)
    → is_prefix s (c ∷ d) ≡ false
    → OccursAt s (c ∷ d) i
    → (j : ℕ) × ((i ≡ suc j) × OccursAt s d j)
behind s d c zero f o = absurd (grind (arith, (is_prefix-OccursAt s (c ∷ d)).1 o, f))
behind s d c (suc j) f o = (j, (refl, (OccursAt-shift s d c j).0 o))

-- What the outer loop answers for one more character in front.
First-shift :
    (s d : List ℕ) (c : ℕ) (r : Option ℕ)
    → is_prefix s (c ∷ d) ≡ false
    → First s d r
    → (r' : Option ℕ) × ((shift (some r) ≡ some r') × First s (c ∷ d) r')
unfolding First
First-shift s d c none f h = (none, (refl, λ i o. let (j, (_, o')) = behind s d c i f o in h j o'))
First-shift s d c (some k) f (o, h) = (
  some (suc k),
  (
    refl,
    (
      (OccursAt-shift s d c k).1 o,
      λ i l o'. let (j, (e, p)) = behind s d c i f o' in h j (omega arith) p,
    ),
  ),
)

find_from-First :
    (s d : List ℕ) (x y : Cells)
    → IsText s
    → 0 < length s
    → IsText d
    → (r : Option ℕ) × ((find_from (text d x) (text s y) ≡ some r) × First s d r)
unfolding find_from First
find_from-First s [] x y hs ne hd = (none, (refl, λ i (b, _). absurd (omega arith)))
find_from-First s (c ∷ d) x y hs ne (p, hd) =
    let z : (c == 0) ≡ false = grind arith in
    let m = matches-is_prefix s (c ∷ d) x y hs (p, hd) in
    elim (Bool-cases (is_prefix s (c ∷ d))) [
      | inl t ↦ (
        some 0,
        (
          rw (find_from, z, m, t) refl,
          ((is_prefix-OccursAt s (c ∷ d)).0 t, λ j l. absurd (omega arith)),
        ),
      )
      | inr f ↦
          let (r, (e, q)) = find_from-First s d x y hs ne hd in
          let (r', (e', q')) = First-shift s d c r f q in
          (r', (rw (find_from, z, m, f) (ap shift e ∙ e'), q'))
    ]

-- On two terminated strings wstrstr reads no cell past them, and answers the offset at which the second
-- stands first in the first, or null when it stands nowhere there.
pub wstrstr-First :
    (d s : List ℕ) (x y : Cells)
    → IsText d
    → IsText s
    → (r : Option ℕ) × ((wstrstr (text d x) (text s y) ≡ some r) × First s d r)
unfolding wstrstr First
wstrstr-First d [] x y hd hs =
    (some 0, (refl, ((is_prefix-OccursAt [] d).0 refl, λ j l. absurd (omega arith))))
wstrstr-First d (e ∷ s) x y hd (p, hs) =
    let z : (e == 0) ≡ false = grind arith in
    let (r, (q, f)) = find_from-First (e ∷ s) d x y (p, hs) (omega arith) hd in (r, (rw z q, f))
