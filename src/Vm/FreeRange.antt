-- ===== src/Vm/FreeRange.antt =====
-- What `findFreeMappingLocked` of src/heap.cpp finds is free.
use wibo.Base.{
  ℕ, ◌+◌, ◌-◌, ◌*◌, ◌/◌, ◌%◌, ◌^◌, ◌≤◌, ◌<◌, ◌≡◌, ◌⊎◌, inl, inr, refl, sym, subst, [], ◌∷◌, Bool,
  Option, none, some, arith, ltb, leb, if◌then◌else◌, Bool-cases, Option-cases, same_some, ap, ◌∙◌,
}
use wibo.Vm.Align.{align_up, page_size, align_up_granularity, align_down_granularity, align_up_page}
use wibo.Vm.Mapping.{Mappings}
use wibo.Vm.Gap.{try_gap, Search, found, stop, go, better, consider_gap, advance}

-- A range that starts at a multiple of 64 KiB and lies between two bounds.
abbrev pub Fits : ℕ → ℕ → ℕ → ℕ → Type 0
Fits n lo hi a = (a % 65536 ≡ 0) × (lo ≤ a) × (a + n ≤ hi)

try_gap-Fits :
    (n : ℕ) (top : Bool) (s e a : ℕ)
    → s < 2 ^ 62
    → e < 2 ^ 62
    → n < 2 ^ 62
    → try_gap n top s e ≡ some a
    → Fits n s e a
unfolding try_gap
try_gap-Fits n top s e a bs be bn h =
    ground (arith, align_up_granularity s, align_down_granularity (e - n))

-- The range of `n` bytes at `a` meets no mapping.
unfoldable pub IsFree : ℕ → ℕ → Mappings → Type 0
IsFree a n [] = a ≡ a
IsFree a n ((k, i) ∷ ms) = ((k + i.region_size ≤ a) ⊎ (a + n ≤ k)) × IsFree a n ms

-- The keys are sorted, from `lo` on, and keys and sizes are those of 32-bit ranges.
unfoldable pub IsSortedFrom : ℕ → Mappings → Type 0
IsSortedFrom lo [] = lo ≡ lo
IsSortedFrom lo ((k, i) ∷ ms) =
    (lo ≤ k) × (k < 2 ^ 32) × (i.region_size < 2 ^ 32) × IsSortedFrom k ms

pub IsFree-IsSortedFrom :
    (a n lo : ℕ) (ms : Mappings) → a + n ≤ lo → IsSortedFrom lo ms → IsFree a n ms
unfolding IsFree IsSortedFrom
IsFree-IsSortedFrom a n lo [] h s = refl
IsFree-IsSortedFrom a n lo ((k, i) ∷ ms) h (l, _, _, s) =
    (inr (omega arith), IsFree-IsSortedFrom a n k ms (omega arith) s)

abbrev pub BestGood : (ℕ → Type 0) → Option ℕ → Type 0
BestGood G best = (x : ℕ) → best ≡ some x → G x

module _ (n : ℕ) (top : Bool) (G : ℕ → Type 0) where
  better-BestGood : (c : ℕ) (best : Option ℕ) → G c → BestGood G best → BestGood G (better c best)
  unfolding better
  better-BestGood c none g b x h = subst G (same_some refl h) g
  better-BestGood c (some y) g b x h = elim (Bool-cases (ltb y c)) [
    | inl t ↦ subst G (same_some (ap (λ z. if z then some c else some y) t) h) g
    | inr f ↦ b x (sym (ap (λ z. if z then some c else some y) f) ∙ h)
  ]

  pub consider_gap_lem :
      (K : Search → Type 0) (s e : ℕ) (best : Option ℕ) (k : Option ℕ → Search)
      → s < 2 ^ 62
      → e < 2 ^ 62
      → n < 2 ^ 62
      → ((a : ℕ) → Fits n s e a → G a)
      → BestGood G best
      → ((a : ℕ) → G a → K (found a))
      → ((b : Option ℕ) → BestGood G b → K (k b))
      → K (consider_gap n top s e best k)
  unfolding consider_gap
  consider_gap_lem K s e best k bs be bn fits bg kf kk = elim (Option-cases (try_gap n top s e)) [
    | inl h ↦ rw (consider_gap, h) (kk best bg)
    | inr (a, h) ↦
        let g : G a = fits a (try_gap-Fits n top s e a bs be bn h) in
        elim (Bool-cases top) [
          | inl t ↦ rw (consider_gap, h, t) (kk (better a best) (better-BestGood a best g bg))
          | inr f ↦ rw (consider_gap, h, f) (kf a g)
        ]
  ]

-- What is known of a step of the search for `n` bytes from `lo` to `hi`: an answer is good, a cursor
-- leaves only ranges of `S` above it, or of `R` where the loop ends.
unfoldable pub Ok : ℕ → ℕ → ℕ → (ℕ → Type 0) → (ℕ → Type 0) → Search → Type 0
Ok n lo hi R S (found a) = Fits n lo hi a × R a
Ok n lo hi R S (stop c b) =
    BestGood (λ a. Fits n lo hi a × R a) b
    × (c < 2 ^ 40)
    × (lo ≤ c)
    × (c < hi → (a : ℕ) → c ≤ a → a + n ≤ hi → R a)
Ok n lo hi R S (go c b) =
    BestGood (λ a. Fits n lo hi a × R a) b × (c < 2 ^ 40) × (lo ≤ c) × ((a : ℕ) → c ≤ a → S a)

module _ (n lo hi : ℕ) (top : Bool) (bn : n < 2 ^ 40) (bhi : hi ≤ 2 ^ 32) (R S : ℕ → Type 0) where
  pub advance-Ok :
      (c e : ℕ) (best : Option ℕ)
      → c < 2 ^ 40
      → lo ≤ c
      → e < 2 ^ 34
      → BestGood (λ a. Fits n lo hi a × R a) best
      → ((a : ℕ) → c ≤ a → e ≤ a → S a)
      → Ok n lo hi R S (advance hi c e best)
  unfolding advance Ok
  advance-Ok c e best bc lc be bg inv = elim (Bool-cases (ltb c e)) [
    | inl t ↦
        let u : align_up e page_size ≡ (e + 4095) / 4096 * 4096 = align_up_page e (omega arith) in
        let l : c < e = grind arith in
        elim (Bool-cases (leb hi ((e + 4095) / 4096 * 4096))) [
          | inl t' ↦ rw (t, u, t') (bg, omega arith, omega arith, λ h. absurd (grind arith))
          | inr f' ↦
              rw (t, u, f') (bg, omega arith, omega arith, λ a g. inv a (omega arith) (omega arith))
        ]
    | inr f ↦
        let l : e ≤ c = grind arith in
        elim (Bool-cases (leb hi c)) [
          | inl t' ↦ rw (f, t') (bg, bc, lc, λ h. absurd (grind arith))
          | inr f' ↦ rw (f, f') (bg, bc, lc, λ a g. inv a g (omega arith))
        ]
  ]
