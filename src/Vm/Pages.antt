-- ===== src/Vm/Pages.antt =====
-- The page tables of the allocations of src/heap.cpp: what marking writes and what a block is.
use wibo.Base.{
  ◌≢◌, ap, ◌∙◌, ℕ, zero, suc, ◌+◌, ◌≤◌, ◌<◌, ◌≡◌, ◌⊎◌, inl, inr, refl, subst, List, true, false,
  ◌&&◌, none, some, arith, ltb, leb, ◌==◌, if◌then◌else◌, length, get_elem?, set, length-set,
  get_elem?-set, Bool-cases, Option-cases,
}
use wibo.Vm.Regions.{set_pages}
use wibo.Vm.Query.{same_block, block_first, block_last}

pub length-set_pages :
    (first count p : ℕ) (ps : List ℕ) → length (set_pages first count p ps) ≡ length ps
unfolding set_pages
length-set_pages first zero p ps = refl
length-set_pages first (suc c) p ps =
    omega (arith, length-set_pages (suc first) c p (set ps first p), length-set ps first p)

-- Marking writes the pages from `first` on, `count` of them, and no other.
pub get_elem?-set_pages :
    (first count p : ℕ) (ps : List ℕ) (j : ℕ)
    → first + count ≤ length ps
    → get_elem? (set_pages first count p ps) j
      ≡ (if leb first j && ltb j (first + count) then some p else get_elem? ps j)
unfolding set_pages
get_elem?-set_pages first zero p ps j h = ground arith
get_elem?-set_pages first (suc c) p ps j h = ground (
  arith,
  get_elem?-set_pages (suc first) c p (set ps first p) j (omega (arith, length-set ps first p)),
  get_elem?-set ps first j p (omega arith),
)

-- The test of the code asks whether the pages are alike: both not committed, as their 0 says, or committed
-- with the same protection.
same_block-eq : (protect p : ℕ) → same_block protect p ≡ true → p ≡ protect
unfolding same_block
same_block-eq protect p h = ground (arith, h)

same_block-ne : (protect p : ℕ) → same_block protect p ≡ false → p ≢ protect
unfolding same_block
same_block-ne protect p h e = absurd (ground (arith, h, e))

-- Page `j` has this protection, where 0 is that of a page that is not committed.
abbrev pub InBlock : List ℕ → ℕ → ℕ → Type 0
InBlock pages protect j = get_elem? pages j ≡ some protect

-- Page `j` is not there or has another one.
abbrev pub OffBlock : List ℕ → ℕ → ℕ → Type 0
OffBlock pages protect j =
    (get_elem? pages j ≡ none) ⊎ ((p : ℕ) × (get_elem? pages j ≡ some p) × (p ≢ protect))

-- A maximal run that ends before `i`.
abbrev pub RunBefore : List ℕ → ℕ → ℕ → ℕ → Type 0
RunBefore pages protect i f =
    (f ≤ i)
    × ((j : ℕ) → f ≤ j → j < i → InBlock pages protect j)
    × ((f ≡ 0) ⊎ ((g : ℕ) × (f ≡ g + 1) × OffBlock pages protect g))

-- A maximal run from `i` on that ends before `limit`.
abbrev pub RunAfter : List ℕ → ℕ → ℕ → ℕ → ℕ → Type 0
RunAfter pages protect i limit l =
    (i ≤ l)
    × (l ≤ limit)
    × ((j : ℕ) → i ≤ j → j < l → InBlock pages protect j)
    × ((l ≡ limit) ⊎ OffBlock pages protect l)

pub block_first-RunBefore :
    (pages : List ℕ) (protect i : ℕ) → RunBefore pages protect i (block_first pages protect i)
unfolding block_first
block_first-RunBefore pages protect zero = (omega arith, λ j l h. absurd (omega arith), inl refl)
block_first-RunBefore pages protect (suc i) = elim (Option-cases (get_elem? pages i)) [
  | inl e ↦
      rw (block_first, e) (omega arith, λ j l h. absurd (omega arith), inr (i, omega arith, inl e))
  | inr (p, e) ↦ elim (Bool-cases (same_block protect p)) [
    | inl t ↦
        let (le, all, end) = block_first-RunBefore pages protect i in
        rw (block_first, e, t)
          (
            omega arith,
            λ j l h. elim (Bool-cases (j == i)) [
              | inl q ↦
                  let q' : i ≡ j = grind arith in
                  subst (InBlock pages protect) q' (e ∙ ap some (same_block-eq protect p t))
              | inr q ↦ all j l (grind arith)
            ],
            end,
          )
    | inr f ↦
        rw (block_first, e, f)
          (
            omega arith,
            λ j l h. absurd (omega arith),
            inr (i, omega arith, inr (p, e, same_block-ne protect p f)),
          )
  ]
]

pub block_last-RunAfter :
    (pages : List ℕ) (protect i left : ℕ)
    → RunAfter pages protect i (i + left) (block_last pages protect i left)
unfolding block_last
block_last-RunAfter pages protect i zero =
    (omega arith, omega arith, λ j l h. absurd (omega arith), inl (omega arith))
block_last-RunAfter pages protect i (suc left) = elim (Option-cases (get_elem? pages i)) [
  | inl e ↦
      rw (block_last, e) (omega arith, omega arith, λ j l h. absurd (omega arith), inr (inl e))
  | inr (p, e) ↦ elim (Bool-cases (same_block protect p)) [
    | inl t ↦
        let (ge, le, all, end) = block_last-RunAfter pages protect (suc i) left in
        rw (block_last, e, t)
          (
            omega arith,
            omega arith,
            λ j l h. elim (Bool-cases (j == i)) [
              | inl q ↦
                  let q' : i ≡ j = grind arith in
                  subst (InBlock pages protect) q' (e ∙ ap some (same_block-eq protect p t))
              | inr q ↦ all j (grind arith) h
            ],
            elim end [ inl q ↦ inl (omega arith) | inr o ↦ inr o ],
          )
    | inr f ↦
        rw (block_last, e, f)
          (
            omega arith,
            omega arith,
            λ j l h. absurd (omega arith),
            inr (inr (p, e, same_block-ne protect p f)),
          )
  ]
]
