-- ===== src/Vm/FreeScan.antt =====
-- The loop of `findFreeMappingLocked` of src/heap.cpp, and what the search promises.
use wibo.Base.{
  ℕ, ◌+◌, ◌-◌, ◌*◌, ◌/◌, ◌%◌, ◌^◌, ◌≤◌, ◌<◌, ◌≡◌, ◌⊎◌, inl, inr, refl, subst, [], ◌∷◌, Bool, ◌||◌,
  Option, none, some, arith, ltb, leb, ◌==◌, min, same_some, Bool-cases,
}
use wibo.Vm.Align.{
  align_up, page_size, virtual_allocation_granularity, align_up_granularity, align_up_page,
}
use wibo.Vm.Types.{Info}
use wibo.Vm.Mapping.{Mappings}
use wibo.Vm.Gap.{
  Search, found, stop, go, advance, visit, finish_search, scan_mappings, find_free_mapping,
}
use wibo.Vm.FreeRange.{
  Fits, IsFree, IsSortedFrom, IsFree-IsSortedFrom, BestGood, Ok, consider_gap_lem, advance-Ok,
}

module _ (n lo hi : ℕ) (top : Bool) (bn : n < 2 ^ 40) (bhi : hi ≤ 2 ^ 32) where
  visit-Ok :
      (R S : ℕ → Type 0) (c : ℕ) (best : Option ℕ) (k : ℕ) (i : Info) (ms : Mappings)
      → k < 2 ^ 32
      → i.region_size < 2 ^ 32
      → IsSortedFrom k ms
      → c < 2 ^ 40
      → lo ≤ c
      → BestGood (λ a. Fits n lo hi a × R a) best
      → ((a : ℕ) → c ≤ a → S a)
      → ((a : ℕ) → S a → ((k + i.region_size ≤ a) ⊎ (a + n ≤ k)) → IsFree a n ms → R a)
      → Ok n lo hi R
          (λ a. S a × ((k + i.region_size ≤ a) ⊎ (a + n ≤ k)))
          (visit n lo hi top c best (k, i))
  unfolding visit Ok
  visit-Ok R S c best k i ms bk bi s bc lc bg inv r =
      let e : ℕ = k + i.region_size in
      let w : (k + i.region_size) % 2 ^ 64 ≡ k + i.region_size = omega arith in
      let below : (a : ℕ) → c ≤ a → a + n ≤ k → R a =
        λ a l u. r a (inv a l) (inr u) (IsFree-IsSortedFrom a n k ms u s) in
      let after : (b : Option ℕ)
          → BestGood (λ a. Fits n lo hi a × R a) b
          → Ok n lo hi R (λ a. S a × ((e ≤ a) ⊎ (a + n ≤ k))) (advance hi c e b) =
        λ b g.
          advance-Ok n lo hi top bn bhi R (λ a. S a × ((e ≤ a) ⊎ (a + n ≤ k))) c e b bc lc
            (omega arith) g (λ a l u. (inv a l, inl u)) in
      elim (Bool-cases (leb e lo)) [
        | inl t ↦
            let l : e ≤ lo = grind arith in
            rw (w, t) (bg, bc, lc, λ a g. (inv a g, inl (omega arith)))
        | inr f ↦ elim (Bool-cases (leb hi k)) [
          | inl t ↦
              let l : hi ≤ k = grind arith in
              rw (w, f, t)
                (consider_gap_lem n top (λ a. Fits n lo hi a × R a)
                  (λ z. Ok n lo hi R (λ a. S a × ((e ≤ a) ⊎ (a + n ≤ k))) z) c hi best
                  (λ b. stop c b) (omega arith) (omega arith) (omega arith)
                  (λ a (d, l1, l2). ((d, omega arith, l2), below a l1 (omega arith))) bg (λ a g. g)
                  (λ b g. (g, bc, lc, λ h a l1 l2. below a l1 (omega arith))))
          | inr f' ↦ elim (Bool-cases (ltb c k)) [
            | inl t ↦
                let m1 : min k hi ≤ k = omega arith in
                let m2 : min k hi ≤ hi = omega arith in
                rw (w, f, f', t)
                  (consider_gap_lem n top (λ a. Fits n lo hi a × R a)
                    (λ z. Ok n lo hi R (λ a. S a × ((e ≤ a) ⊎ (a + n ≤ k))) z) c (min k hi) best
                    (λ b. advance hi c e b) (omega arith) (omega arith) (omega arith)
                    (λ a (d, l1, l2). ((d, omega arith, omega arith), below a l1 (omega arith))) bg
                    (λ a g. g) after)
            | inr f'' ↦ rw (w, f, f', f'') (after best bg)
          ]
        ]
      ]

  finish_search-Ok :
      (R : ℕ → Type 0) (c : ℕ) (best : Option ℕ)
      → c < 2 ^ 40
      → lo ≤ c
      → BestGood (λ a. Fits n lo hi a × R a) best
      → (c < hi → (a : ℕ) → c ≤ a → a + n ≤ hi → R a)
      → BestGood (λ a. Fits n lo hi a × R a) (finish_search n hi top c best)
  unfolding finish_search
  finish_search-Ok R c best bc lc bg r = elim (Bool-cases (ltb c hi)) [
    | inl t ↦
        let l : c < hi = grind arith in
        rw t (
          consider_gap_lem n top (λ a. Fits n lo hi a × R a)
            (λ z.
              BestGood (λ a. Fits n lo hi a × R a)
                (elim z [ found a ↦ some a | stop _ b ↦ b | go _ b ↦ b ]))
            c hi best (λ b. stop c b) (omega arith) (omega arith) (omega arith)
            (λ a (d, l1, l2). ((d, omega arith, l2), r l a l1 l2)) bg
            (λ a g x h. subst (λ y. Fits n lo hi y × R y) (same_some refl h) g) (λ b g. g))
    | inr f ↦ rw f bg
  ]

  next-Fits :
      (R S : ℕ → Type 0) (ms : Mappings) (z : Search)
      → ((c : ℕ) (b : Option ℕ)
          → c < 2 ^ 40
          → lo ≤ c
          → BestGood (λ a. Fits n lo hi a × R a) b
          → ((a : ℕ) → c ≤ a → S a)
          → BestGood (λ a. Fits n lo hi a × R a) (scan_mappings n lo hi top c b ms))
      → Ok n lo hi R S z
      → BestGood
          (λ a. Fits n lo hi a × R a)
          (elim z [
            | found a ↦ some a
            | stop c b ↦ finish_search n hi top c b
            | go c b ↦ scan_mappings n lo hi top c b ms
          ])
  unfolding Ok
  next-Fits R S ms (found a) rec g = λ x h. subst (λ y. Fits n lo hi y × R y) (same_some refl h) g
  next-Fits R S ms (stop c b) rec (g, bc, lc, r) = finish_search-Ok R c b bc lc g r
  next-Fits R S ms (go c b) rec (g, bc, lc, inv) = rec c b bc lc g inv

  scan_mappings-Fits :
      (ms : Mappings) (R S : ℕ → Type 0) (c : ℕ) (best : Option ℕ) (from : ℕ)
      → IsSortedFrom from ms
      → c < 2 ^ 40
      → lo ≤ c
      → BestGood (λ a. Fits n lo hi a × R a) best
      → ((a : ℕ) → c ≤ a → S a)
      → ((a : ℕ) → S a → IsFree a n ms → R a)
      → BestGood (λ a. Fits n lo hi a × R a) (scan_mappings n lo hi top c best ms)
  unfolding scan_mappings IsFree IsSortedFrom
  scan_mappings-Fits [] R S c best from s bc lc bg inv r =
      finish_search-Ok R c best bc lc bg (λ h a l u. r a (inv a l) refl)
  scan_mappings-Fits ((k, i) ∷ ms) R S c best from (_, bk, bi, s) bc lc bg inv r =
      let S' : ℕ → Type 0 = λ a. S a × ((k + i.region_size ≤ a) ⊎ (a + n ≤ k)) in
      next-Fits R S' ms (visit n lo hi top c best (k, i))
        (λ c' b bc' lc' g inv'.
          scan_mappings-Fits ms R S' c' b k s bc' lc' g inv' (λ a (p, q) f. r a p (q, f)))
        (visit-Ok R S c best k i ms bk bi s bc lc bg inv (λ a p q f. r a p (q, f)))

-- When the mappings are sorted by address, the address found is a multiple of 64 KiB, the rounded-up size
-- fits there between the bounds of the search, and no mapping meets that range; this holds for a search
-- from either end.
pub find_free_mapping-IsFree :
    (size lo hi : ℕ) (top : Bool) (ms : Mappings) (a : ℕ)
    → size < 2 ^ 32
    → hi ≤ 2 ^ 32
    → IsSortedFrom 0 ms
    → find_free_mapping size lo hi top ms ≡ some a
    → Fits ((size + 4095) / 4096 * 4096) lo hi a × IsFree a ((size + 4095) / 4096 * 4096) ms
unfolding find_free_mapping
find_free_mapping-IsFree size lo hi top ms a bs bh s h =
    let n : ℕ = (size + 4095) / 4096 * 4096 in
    let u : align_up size page_size ≡ n = align_up_page size (omega arith) in
    elim (Bool-cases (size == 0)) [
      | inl t ↦ absurd (grind arith)
      | inr f ↦ elim (Bool-cases (leb hi lo || ltb (hi - lo) n)) [
        | inl t ↦ absurd (grind arith)
        | inr f' ↦
            let l : lo ≤ hi = grind arith in
            let v : align_up lo virtual_allocation_granularity ≡ (lo + 65535) / 65536 * 65536 =
              align_up_granularity lo (omega arith) in
            let h' : scan_mappings n lo hi top ((lo + 65535) / 65536 * 65536) none ms ≡ some a =
              grind arith in
            scan_mappings-Fits n lo hi top (omega arith) bh ms (λ a. IsFree a n ms) (λ a. a ≡ a)
              ((lo + 65535) / 65536 * 65536) none 0 s (omega arith) (omega arith)
              (λ x e. absurd (grind arith)) (λ x e. refl) (λ x e g. g) a h'
      ]
    ]
