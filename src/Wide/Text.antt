-- ===== src/Wide/Text.antt =====
-- Terminated strings in memory, and where one string stands in another.
use wibo.Base.{
  ℕ, zero, suc, ◌+◌, ◌≤◌, ◌<◌, ◌≡◌, ◌↔◌, inl, inr, refl, sym, ap, ◌∙◌, List, [], ◌∷◌, ◌++◌, Bool,
  true, false, Option, none, some, arith, ◌==◌, if◌then◌else◌, length, get_elem?, same_some,
  Bool-cases,
}
use wibo.Wide.Cells.{Cells, scan_length}

-- No character is the terminator.
abbrev pub IsText : List ℕ → Type 0
IsText [] = ◌≡◌ {A = ℕ} 0 0
IsText (c ∷ s) = (0 < c) × IsText s

-- The string `s` with its terminator, and what follows it in memory.
abbrev pub text : List ℕ → Cells → Cells
text s rest = s ++ (0 ∷ rest)

pub scan_length-text :
    (s : List ℕ) (rest : Cells) → IsText s → scan_length (text s rest) ≡ some (length s)
unfolding scan_length
scan_length-text [] rest h = refl
scan_length-text (c ∷ s) rest (p, h) =
    let z : (c == 0) ≡ false = grind arith in rw (z, scan_length-text s rest h) refl

-- `s` stands in `d` at offset `i`.
abbrev pub OccursAt : List ℕ → List ℕ → ℕ → Type 0
OccursAt s d i =
    (i + length s ≤ length d) × ((j : ℕ) → j < length s → get_elem? d (i + j) ≡ get_elem? s j)

-- Where `s` stands first in `d`: nowhere, or at an offset with none before it.
unfoldable pub First : List ℕ → List ℕ → Option ℕ → Type 0
First s d none = (i : ℕ) → ¬ OccursAt s d i
First s d (some i) = OccursAt s d i × ((j : ℕ) → j < i → ¬ OccursAt s d j)

pub OccursAt-shift : (s d : List ℕ) (c i : ℕ) → OccursAt s (c ∷ d) (suc i) ↔ OccursAt s d i
OccursAt-shift s d c i = (
  λ (b, h). (omega arith, λ j l. ap (get_elem? (c ∷ d)) (e j) ∙ h j l),
  λ (b, h). (omega arith, λ j l. ap (get_elem? (c ∷ d)) (sym (e j)) ∙ h j l),
)
  where
    e : (j : ℕ) → suc (i + j) ≡ suc i + j
    e j = omega arith

-- A string starts with another one.
abbrev pub is_prefix : List ℕ → List ℕ → Bool
is_prefix [] d = true
is_prefix (e ∷ s) [] = false
is_prefix (e ∷ s) (c ∷ d) = if c == e then is_prefix s d else false

prefix_length : (s d : List ℕ) → is_prefix s d ≡ true → length s ≤ length d
prefix_length [] d h = omega arith
prefix_length (e ∷ s) [] h = absurd (grind arith)
prefix_length (e ∷ s) (c ∷ d) h = elim (Bool-cases (c == e)) [
  | inl t ↦ omega (arith, prefix_length s d (grind arith))
  | inr f ↦ absurd (grind arith)
]

prefix_elem :
    (s d : List ℕ) (j : ℕ) → is_prefix s d ≡ true → j < length s → get_elem? d j ≡ get_elem? s j
prefix_elem [] d j h l = absurd (omega arith)
prefix_elem (e ∷ s) [] j h l = absurd (grind arith)
prefix_elem (e ∷ s) (c ∷ d) zero h l = elim (Bool-cases (c == e)) [
  | inl t ↦ ap some (grind arith)
  | inr f ↦ absurd (grind arith)
]
prefix_elem (e ∷ s) (c ∷ d) (suc j) h l = elim (Bool-cases (c == e)) [
  | inl t ↦ prefix_elem s d j (grind arith) (omega arith)
  | inr f ↦ absurd (grind arith)
]

elem_prefix :
    (s d : List ℕ)
    → length s ≤ length d
    → ((j : ℕ) → j < length s → get_elem? d j ≡ get_elem? s j)
    → is_prefix s d ≡ true
elem_prefix [] d b h = refl
elem_prefix (e ∷ s) [] b h = absurd (omega arith)
elem_prefix (e ∷ s) (c ∷ d) b h =
    let q : c ≡ e = same_some refl (h 0 (omega arith)) in
    let t : (c == e) ≡ true = grind arith in
    rw t (elem_prefix s d (omega arith) (λ j l. h (suc j) (omega arith)))

pub is_prefix-OccursAt : (s d : List ℕ) → (is_prefix s d ≡ true) ↔ OccursAt s d 0
is_prefix-OccursAt s d = (
  λ h. (omega (arith, prefix_length s d h), λ j l. ap (get_elem? d) (e j) ∙ prefix_elem s d j h l),
  λ (b, h). elem_prefix s d (omega arith) (λ j l. ap (get_elem? d) (sym (e j)) ∙ h j l),
)
  where
    e : (j : ℕ) → 0 + j ≡ j
    e j = omega arith
