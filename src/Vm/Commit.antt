-- ===== src/Vm/Commit.antt =====
-- What committing pages with `virtualAlloc` of src/heap.cpp does to an allocation.
use wibo.Base.{
  ℕ, zero, suc, ◌+◌, ◌-◌, ◌*◌, ◌/◌, ◌≤◌, ◌<◌, ◌≡◌, inl, inr, refl, sym, ap, ◌∙◌, subst, List, [],
  ◌∷◌, ◌&&◌, Option, none, some, arith, ltb, leb, ◌==◌, if◌then◌else◌, length, get_elem?,
  get_elem?-bound, same_some, Bool-cases, Option-cases,
}
use wibo.Vm.Align.{page_size}
use wibo.Vm.Types.{Region}
use wibo.Vm.Status.{Host, posix_protect}
use wibo.Vm.Regions.{set_pages, mark_pages}
use wibo.Vm.Allocate.{extend_run, collect_runs, commit_runs}
use wibo.Vm.Pages.{get_elem?-set_pages}

-- A run from page `i` on, `c` pages long already, that may take `left` more.
abbrev Extended : List ℕ → ℕ → ℕ → ℕ → ℕ → ℕ × ℕ → Type 0
Extended pages first i c left run =
    (i ≤ run.0)
    × (run.0 ≤ i + left)
    × (run.1 + i * 4096 ≡ (c + run.0) * 4096)
    × ((j : ℕ) → i < j → j ≤ run.0 → get_elem? pages (first + j) ≡ some 0)

extend_run-Extended :
    (pages : List ℕ) (first i c left : ℕ)
    → Extended pages first i c left (extend_run pages first i (c * 4096) left)
unfolding extend_run
extend_run-Extended pages first i c zero =
    (omega arith, omega arith, omega arith, λ j l h. absurd (omega arith))
extend_run-Extended pages first i c (suc left) =
    elim (Option-cases (get_elem? pages (first + i + 1))) [
      | inl n ↦
          rw (extend_run, n) (omega arith, omega arith, omega arith, λ j l h. absurd (omega arith))
      | inr (p, n) ↦ elim (Bool-cases (p == 0)) [
        | inr f ↦
            rw (extend_run, n, f)
              (omega arith, omega arith, omega arith, λ j l h. absurd (omega arith))
        | inl t ↦
            let q : c * 4096 + page_size ≡ (c + 1) * 4096 = omega arith in
            let (a, b, d, z) = extend_run-Extended pages first (suc i) (c + 1) left in
            let zero_at : get_elem? pages (first + (i + 1)) ≡ some 0 = grind arith in
            rw (extend_run, n, t, q)
              (
                omega arith,
                omega arith,
                omega arith,
                λ j l h. elim (Bool-cases (j == i + 1)) [
                  | inl e ↦
                      let e' : i + 1 ≡ j = grind arith in
                      subst (λ k. get_elem? pages (first + k) ≡ some 0) e' zero_at
                  | inr e ↦ z j (grind arith) h
                ],
              )
      ]
    ]

-- A page after a commitment: one that was not committed gets `protect`, any other keeps its protection.
abbrev pub filled : ℕ → Option ℕ → Option ℕ
filled protect none = none
filled protect (some p) = if p == 0 then some protect else some p

-- The pages of `r'` are those of `r`, filled from `lo` to `hi`.
abbrev pub Filled : ℕ → ℕ → ℕ → Region → Region → Type 0
Filled protect lo hi r r' =
    (r'.base ≡ r.base)
    × (r'.size ≡ r.size)
    × ((j : ℕ)
        → get_elem? r'.page_protect j ≡ (
            if leb lo j && ltb j hi
            then filled protect (get_elem? r.page_protect j)
            else get_elem? r.page_protect j))

-- One run of pages that are not committed, marked, extends what the rest fills.
Filled-mark_pages :
    (protect start first i e hi : ℕ) (r r' : Region)
    → r.base ≤ start
    → first ≡ (start - r.base) / 4096
    → i ≤ e
    → first + e < hi
    → ((j : ℕ) → i ≤ j → j ≤ e → get_elem? r.page_protect (first + j) ≡ some 0)
    → Filled protect
        (first + suc e)
        hi
        (mark_pages r (start + i * 4096) ((suc e - i) * 4096) protect)
        r'
    → Filled protect (first + i) hi r r'
unfolding mark_pages
Filled-mark_pages protect start first i e hi r r' ge ef le lt z (eb, es, f) =
    let d : (start + i * 4096 - r.base) / 4096 ≡ first + i = omega arith in
    let c : (suc e - i) * 4096 / 4096 ≡ suc e - i = omega arith in
    let b : first + e < length r.page_protect =
      get_elem?-bound r.page_protect (first + e) (z e le (omega arith)) in
    (
      eb,
      es,
      λ j.
          let marked : get_elem? (set_pages (first + i) (suc e - i) protect r.page_protect) j ≡ (
              if leb (first + i) j && ltb j (first + i + (suc e - i))
              then some protect
              else get_elem? r.page_protect j) =
            get_elem?-set_pages (first + i) (suc e - i) protect r.page_protect j (omega arith) in
          let f' : get_elem? r'.page_protect j ≡ (
              if leb (first + suc e) j && ltb j hi
              then filled protect
                  (get_elem? (set_pages (first + i) (suc e - i) protect r.page_protect) j)
              else get_elem? (set_pages (first + i) (suc e - i) protect r.page_protect) j) =
            rw (sym d, sym c) (f j) in
          elim (Bool-cases (leb (first + i) j && leb j (first + e))) [
            | inl t ↦
                let w : get_elem? r.page_protect (first + (j - first)) ≡ some 0 =
                  z (j - first) (grind arith) (grind arith) in
                let k : first + (j - first) ≡ j = grind arith in
                let w' : get_elem? r.page_protect j ≡ some 0 =
                  subst (λ x. get_elem? r.page_protect x ≡ some 0) k w in
                grind (arith, f', marked, w')
            | inr t ↦ grind (arith, f', marked)
          ],
    )

same_region : (protect lo hi : ℕ) (r r' : Region) → hi ≤ lo → r ≡ r' → Filled protect lo hi r r'
same_region protect lo hi r r' h e =
    subst (λ z. Filled protect lo hi r z) e (refl, refl, λ j. grind arith)

-- Marking a run does not change the pages after it.
mark_pages-after :
    (protect start first i e : ℕ) (r : Region) (j : ℕ)
    → r.base ≤ start
    → first ≡ (start - r.base) / 4096
    → i ≤ e
    → first + e < length r.page_protect
    → first + suc e ≤ j
    → get_elem? (mark_pages r (start + i * 4096) ((suc e - i) * 4096) protect).page_protect j
      ≡ get_elem? r.page_protect j
unfolding mark_pages
mark_pages-after protect start first i e r j ge ef le b l =
    let d : first + i ≡ (start + i * 4096 - r.base) / 4096 = omega arith in
    let c : suc e - i ≡ (suc e - i) * 4096 / 4096 = omega arith in
    let marked =
      get_elem?-set_pages (first + i) (suc e - i) protect r.page_protect j (omega arith) in
    let out : get_elem? (set_pages (first + i) (suc e - i) protect r.page_protect) j
        ≡ get_elem? r.page_protect j =
      grind (arith, marked) in
    subst
      (λ x.
        get_elem? (set_pages x ((suc e - i) * 4096 / 4096) protect r.page_protect) j
        ≡ get_elem? r.page_protect j)
      d
      (subst
        (λ x.
          get_elem? (set_pages (first + i) x protect r.page_protect) j ≡ get_elem? r.page_protect j)
        c out)

module _ (host : Host) (protect start first n : ℕ) (pages : List ℕ) where
  pub collect_runs-Filled :
      (fuel i : ℕ) (runs : List (ℕ × ℕ)) (r r' : Region)
      → n ≤ i + fuel
      → r.base ≤ start
      → first ≡ (start - r.base) / 4096
      → ((j : ℕ) → first + i ≤ j → get_elem? r.page_protect j ≡ get_elem? pages j)
      → collect_runs pages start first n i fuel ≡ some runs
      → commit_runs host protect runs r ≡ (none, r')
      → Filled protect (first + i) (first + n) r r'
  unfolding collect_runs commit_runs mark_pages
  collect_runs-Filled zero i runs r r' fu ge ef agree h k =
      same_region protect (first + i) (first + n) r r' (omega arith)
        (ap (λ z. z.1) (sym (ap (λ z. commit_runs host protect z r) (sym (same_some refl h))) ∙ k))
  collect_runs-Filled (suc fuel) i runs r r' fu ge ef agree h k = elim (Bool-cases (leb n i)) [
    | inl t ↦
        let e : [] ≡ runs = same_some (rw (collect_runs, t) refl) h in
        same_region protect (first + i) (first + n) r r' (grind arith)
          (ap (λ z. z.1) (sym (ap (λ z. commit_runs host protect z r) (sym e)) ∙ k))
    | inr f ↦ elim (Option-cases (get_elem? pages (first + i))) [
      | inl m ↦ absurd (grind (arith, f, m, h))
      | inr (p, m) ↦ elim (Bool-cases (p == 0)) [
        | inr nz ↦
            let h' : collect_runs pages start first n (suc i) fuel ≡ some runs =
              sym (rw (collect_runs, f, m, nz) refl) ∙ h in
            let (eb, es, all) =
              collect_runs-Filled fuel (suc i) runs r r' (omega arith) ge ef
                (λ j l. agree j (omega arith)) h' k in
            let here : get_elem? r.page_protect (first + i) ≡ some p =
              agree (first + i) (omega arith) ∙ m in
            (
              eb,
              es,
              λ j. elim (Bool-cases (j == first + i)) [
                | inl q ↦
                    let q' : first + i ≡ j = grind arith in
                    let w : get_elem? r.page_protect j ≡ some p =
                      subst (λ x. get_elem? r.page_protect x ≡ some p) q' here in
                    grind (arith, all j, w, nz)
                | inr q ↦ grind (arith, all j)
              ],
            )
        | inl z ↦
            let run : ℕ × ℕ = extend_run pages first i page_size (n - 1 - i) in
            let (le, lt, len, zs) = extend_run-Extended pages first i 1 (n - 1 - i) in
            let zero_at : get_elem? pages (first + i) ≡ some 0 = grind arith in
            let len' : run.1 ≡ (suc run.0 - i) * 4096 = omega arith in
            let zeros : (j : ℕ)
                → i ≤ j
                → j ≤ run.0
                → get_elem? r.page_protect (first + j) ≡ some 0 =
              λ j l u. agree (first + j) (omega arith) ∙ elim (Bool-cases (j == i)) [
                | inl q ↦ subst (λ x. get_elem? pages (first + x) ≡ some 0) (grind arith) zero_at
                | inr q ↦ zs j (grind arith) u
              ] in
            let bound : first + run.0 < length r.page_protect =
              get_elem?-bound r.page_protect (first + run.0) (zeros run.0 le (omega arith)) in
            elim (Option-cases (collect_runs pages start first n (suc run.0) fuel)) [
              | inl nn ↦
                  let h0 : collect_runs pages start first n i (suc fuel) ≡ none =
                    rw (collect_runs, f, m, z, nn) refl in
                  absurd (grind (arith, h0, h))
              | inr (rest, hr) ↦
                  let e : (start + i * page_size, run.1) ∷ rest ≡ runs =
                    same_some (rw (collect_runs, f, m, z, hr) refl) h in
                  let k' : commit_runs host protect ((start + i * page_size, run.1) ∷ rest) r
                      ≡ (none, r') =
                    ap (λ x. commit_runs host protect x r) e ∙ k in
                  elim (Option-cases
                    (host.mmap (start + i * page_size) run.1 (posix_protect protect))) [
                      | inr (err, hm) ↦ absurd (grind (arith, hm, k'))
                      | inl hm ↦
                          let k2 : commit_runs host protect rest
                                (mark_pages r (start + i * page_size) run.1 protect)
                              ≡ (none, r') =
                            sym (rw (commit_runs, hm) refl) ∙ k' in
                          Filled-mark_pages protect start first i run.0 (first + n) r r' ge ef le
                            (grind (arith, f, lt)) zeros
                            (collect_runs-Filled fuel (suc run.0) rest
                              (mark_pages r (start + i * page_size) ((suc run.0 - i) * 4096)
                                protect)
                              r' (omega arith) ge ef
                              (λ j l.
                                mark_pages-after protect start first i run.0 r j ge ef le bound l
                                ∙ agree j (omega arith))
                              hr
                              (subst
                                (λ x.
                                  commit_runs host protect rest
                                    (mark_pages r (start + i * page_size) x protect)
                                  ≡ (none, r'))
                                len' k2))
                    ]
            ]
      ]
    ]
  ]
