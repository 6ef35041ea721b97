-- ===== src/Vm/Blocks.antt =====
-- What `virtualQuery` and `virtualProtect` of src/heap.cpp do to an allocation.
use wibo.Base.{
  ℕ, zero, suc, ◌+◌, ◌-◌, ◌*◌, ◌/◌, ◌≤◌, ◌<◌, ◌≡◌, ◌≢◌, ◌⊎◌, inl, inr, refl, sym, ap, ◌∙◌, subst,
  List, [], ◌∷◌, true, false, not, ◌&&◌, ◌||◌, Option, none, some, arith, ltb, leb, ◌==◌,
  if◌then◌else◌, length, get_elem?, u32, Bool-cases, Option-cases, same_some, get_elem?-bound,
}
use wibo.Vm.Align.{add_ptr, align_down, align_up, page_size, two_gb}
use wibo.Vm.Types.{Region, success, mem_commit, mem_reserve, page_noaccess}
use wibo.Vm.Status.{Host, posix_protect}
use wibo.Vm.Regions.{
  Regions, Vm, region_end, floor_region, find_region, put_region, range_within_region, set_pages,
  refresh_mapping,
}
use wibo.Vm.Release.{all_committed_from, protect_pages, virtual_protect}
use wibo.Vm.Query.{query_block, virtual_query}
use wibo.Vm.Pages.{
  RunBefore, RunAfter, block_first-RunBefore, block_last-RunAfter, get_elem?-set_pages,
}

-- The answer for page `i` of an allocation: the longest run of pages around it that are all uncommitted, or
-- all committed with its protection `p`.
abbrev pub ReportsRun : ℕ → ℕ → Region → ℕ → Vm → Type 0
ReportsRun address i r p vm =
    (f : ℕ) × (l : ℕ) × (RunBefore r.page_protect p i f
      × RunAfter r.page_protect p (suc i) (suc i + (r.size / 4096 - suc i)) l
      × (virtual_query address vm ≡ (
        success,
        some (record {
          base_address = u32 (r.base + f * 4096);
          allocation_base = u32 r.base;
          allocation_protect =
              if not (r.allocation_protect == 0) then r.allocation_protect else page_noaccess;
          region_size = u32 ((l - f) * 4096);
          state = if p == 0 then mem_reserve else mem_commit;
          protect = if p == 0 then page_noaccess else p;
          type = r.type;
        }),
      )))

-- For an address in a page of an allocation, the answer is the longest run of pages around that page which
-- are all uncommitted, or all committed with its protection, with that protection and state.
pub virtual_query-ReportsRun :
    (address : ℕ) (vm : Vm) (r : Region) (p : ℕ)
    → address < two_gb
    → find_region (align_down address page_size) vm.regions ≡ some r
    → get_elem? r.page_protect ((align_down address page_size - r.base) / 4096) ≡ some p
    → ReportsRun address ((align_down address page_size - r.base) / 4096) r p vm
unfolding virtual_query query_block
virtual_query-ReportsRun address vm r p h fr fp =
    let i : ℕ = (align_down address page_size - r.base) / 4096 in
    let t : leb two_gb address ≡ false = grind arith in
    (
      _,
      _,
      (
        block_first-RunBefore r.page_protect p i,
        block_last-RunAfter r.page_protect p (suc i) (r.size / 4096 - suc i),
        rw (virtual_query, t, fr, fp) refl,
      ),
    )

-- The allocations lie in the order of their bases, from `lo` on.
unfoldable pub IsOrderedFrom : ℕ → Regions → Type 0
IsOrderedFrom lo [] = lo ≡ lo
IsOrderedFrom lo (r ∷ rs) = (lo ≤ r.base) × IsOrderedFrom (r.base + 1) rs

-- A search that passes its first candidate ends at a later base; otherwise it ends there for any candidate.
floor_region-later :
    (a lo : ℕ) (x : Region) (rs : Regions) (r : Region)
    → IsOrderedFrom lo rs
    → floor_region a (some x) rs ≡ some r
    → ((x ≡ r) × ((m : Region) → floor_region a (some m) rs ≡ some m)) ⊎ (lo ≤ r.base)
unfolding floor_region IsOrderedFrom
floor_region-later a lo x [] r o h = inl (same_some refl h, λ m. refl)
floor_region-later a lo x (y ∷ rs) r (l, o) h = elim (Bool-cases (ltb a y.base)) [
  | inl t ↦ inl (
    same_some (ap (λ z. if z then some x else floor_region a (some y) rs) t) h,
    λ m. ap (λ z. if z then some m else floor_region a (some y) rs) t,
  )
  | inr f ↦
      let h' : floor_region a (some y) rs ≡ some r =
        sym (ap (λ z. if z then some x else floor_region a (some y) rs) f) ∙ h in
      elim (floor_region-later a (y.base + 1) y rs r o h') [
        | inl (e, _) ↦ inr (subst (λ z. lo ≤ z.base) e l)
        | inr g ↦ inr (omega arith)
      ]
]

floor_region-put_region :
    (a lo : ℕ) (met : Option Region) (rs : Regions) (r r' : Region)
    → IsOrderedFrom lo rs
    → lo ≤ r.base
    → ((m : Region) → met ≡ some m → m.base < lo)
    → r'.base ≡ r.base
    → floor_region a met rs ≡ some r
    → floor_region a met (put_region r' rs) ≡ some r'
unfolding floor_region put_region IsOrderedFrom
floor_region-put_region a lo met [] r r' o l b e h = absurd (omega (arith, b r h))
floor_region-put_region a lo met (x ∷ rs) r r' (lx, o) l b e h = elim (Bool-cases (ltb a x.base)) [
  | inl t ↦
      let h' : met ≡ some r = sym (ap (λ z. if z then met else floor_region a (some x) rs) t) ∙ h in
      absurd (omega (arith, b r h'))
  | inr f ↦
      let h' : floor_region a (some x) rs ≡ some r =
        sym (ap (λ z. if z then met else floor_region a (some x) rs) f) ∙ h in
      elim (floor_region-later a (x.base + 1) x rs r o h') [
        | inl (q, stays) ↦
            let e' : r'.base ≡ x.base = e ∙ sym (ap (λ z. z.base) q) in
            let u : ltb r'.base x.base ≡ false = grind arith in
            let v : (r'.base == x.base) ≡ true = grind arith in
            let w : ltb a r'.base ≡ false = grind arith in rw (u, v, w) (stays r')
        | inr g ↦
            let u : ltb r'.base x.base ≡ false = grind arith in
            let v : (r'.base == x.base) ≡ false = grind arith in
            rw (u, v, f)
              (floor_region-put_region a (x.base + 1) (some x) rs r r' o g
                (λ m q. subst (λ z. z.base < x.base + 1) (same_some refl q) (omega arith)) e h')
      ]
]

find_region-kept :
    (a : ℕ) (rs : Regions) (r : Region)
    → floor_region a none rs ≡ some r
    → leb (add_ptr r.base r.size) a ≡ false
    → find_region a rs ≡ some r
unfolding find_region region_end
find_region-kept a rs r n f = rw (find_region, n, region_end, f) refl

-- Putting back an allocation with the same place leaves it where it was found.
pub find_region-put_region :
    (a : ℕ) (rs : Regions) (r r' : Region)
    → IsOrderedFrom 0 rs
    → r'.base ≡ r.base
    → r'.size ≡ r.size
    → find_region a rs ≡ some r
    → find_region a (put_region r' rs) ≡ some r'
unfolding find_region region_end
find_region-put_region a rs r r' o e s h = elim (Option-cases (floor_region a none rs)) [
  | inl n ↦ absurd (grind (arith, n, h))
  | inr (x, n) ↦ elim (Bool-cases (leb (add_ptr x.base x.size) a)) [
    | inl t ↦ absurd (grind (arith, n, t, h))
    | inr f ↦
        let q : x ≡ r = same_some (find_region-kept a rs x n f) h in
        let k : floor_region a none (put_region r' rs) ≡ some r' =
          floor_region-put_region a 0 none rs r r' o (omega arith) (λ m g. absurd (grind arith)) e
            (n ∙ ap some q) in
        find_region-kept a (put_region r' rs) r' k
          (rw (e, s, sym (ap (λ z. z.base) q), sym (ap (λ z. z.size) q)) f)
  ]
]

-- The pages of a range that is wholly committed.
all_committed_from-lem :
    (ps : List ℕ) (first count : ℕ)
    → all_committed_from ps first count ≡ true
    → (j : ℕ) → first ≤ j
    → j < first + count
    → (p : ℕ) × (get_elem? ps j ≡ some p) × (p ≢ 0)
unfolding all_committed_from
all_committed_from-lem ps first zero h j l u = absurd (omega arith)
all_committed_from-lem ps first (suc c) h j l u = elim (Option-cases (get_elem? ps first)) [
  | inl e ↦ absurd (grind arith)
  | inr (p, e) ↦ elim (Bool-cases (p == 0)) [
    | inl t ↦ absurd (grind arith)
    | inr f ↦ elim (Bool-cases (first == j)) [
      | inl t ↦
          let q : first ≡ j = grind arith in
          subst (λ z. (p : ℕ) × (get_elem? ps z ≡ some p) × (p ≢ 0)) q (p, e, λ z. grind arith)
      | inr g ↦ all_committed_from-lem ps (suc first) c (grind arith) j (grind arith) (omega arith)
    ]
  ]
]

-- The pages of `r'` are those of `r`, but for `count` of them from `first` on, which have `protect`.
abbrev pub Repainted : Region → Region → ℕ → ℕ → ℕ → Type 0
Repainted r r' first count protect =
    (r'.base ≡ r.base)
    × (r'.size ≡ r.size)
    × (r'.type ≡ r.type)
    × (r'.allocation_protect ≡ r.allocation_protect)
    × ((j : ℕ)
        → get_elem? r'.page_protect j ≡ (
            if leb first j && ltb j (first + count)
            then some protect
            else get_elem? r.page_protect j))

protect_pages-Repainted :
    (host : Host) (r : Region) (s e new old : ℕ) (vm vm' : Vm)
    → protect_pages host r s e new vm ≡ (success, some old, vm')
    → (r' : Region) × (let first = (s - r.base) / 4096 in
        let count = (e - s) / 4096 in
        Repainted r r' first count new
        × (vm'.regions ≡ put_region r' vm.regions)
        × (vm'.mappings ≡ refresh_mapping r' vm.mappings)
        × (get_elem? r.page_protect first ≡ some old)
        × ((j : ℕ)
            → first ≤ j
            → j < first + count
            → (p : ℕ) × (get_elem? r.page_protect j ≡ some p) × (p ≢ 0)))
unfolding protect_pages
protect_pages-Repainted host r s e new old vm vm' h =
    let first : ℕ = (s - r.base) / 4096 in
    let count : ℕ = (e - s) / 4096 in
    let pages : List ℕ = set_pages first count new r.page_protect in
    let r' : Region = record r { page_protect = pages } in
    elim (Bool-cases (count == 0)) [
      | inl t ↦ absurd (grind arith)
      | inr f ↦ elim (Option-cases (get_elem? r.page_protect first)) [
        | inl n ↦ absurd (grind arith)
        | inr (q, n) ↦ elim (Bool-cases (q == 0)) [
          | inl t ↦ absurd (grind arith)
          | inr g ↦ elim (Bool-cases (all_committed_from r.page_protect first count)) [
            | inr t ↦ absurd (grind arith)
            | inl c ↦ elim (Option-cases (host.mprotect s (e - s) (posix_protect new))) [
              | inr (err, m) ↦ absurd (grind arith)
              | inl m ↦
                  let k : protect_pages host r s e new vm ≡ (
                    success,
                    some q,
                    record {
                      regions = put_region r' vm.regions;
                      mappings = refresh_mapping r' vm.mappings;
                    },
                  ) =
                    rw (protect_pages, f, n, g, c, m) refl in
                  let v = sym k ∙ h in
                  let last =
                    all_committed_from-lem r.page_protect first count c (first + count - 1)
                      (grind arith) (grind arith) in
                  let b : first + count ≤ length r.page_protect =
                    omega (arith, get_elem?-bound r.page_protect (first + count - 1) last.1) in
                  (
                    r',
                    (
                      (
                        refl,
                        refl,
                        refl,
                        refl,
                        λ j. get_elem?-set_pages first count new r.page_protect j b,
                      ),
                      ap (λ z. z.2.regions) (sym v),
                      ap (λ z. z.2.mappings) (sym v),
                      n ∙ ap (λ z. z.1) v,
                      all_committed_from-lem r.page_protect first count c,
                    ),
                  )
            ]
          ]
        ]
      ]
    ]

-- What a change of protection from `old` to `new` does to the pages from `start` to `end`.
abbrev pub Protected : ℕ → ℕ → ℕ → ℕ → Vm → Vm → Type 0
Protected start end new old vm vm' =
    (r : Region) × (r' : Region) × ((find_region start vm.regions ≡ some r)
      × (find_region start vm'.regions ≡ some r')
      × Repainted r r' ((start - r.base) / 4096) ((end - start) / 4096) new
      × (vm'.mappings ≡ refresh_mapping r' vm.mappings)
      × (get_elem? r.page_protect ((start - r.base) / 4096) ≡ some old)
      × ((j : ℕ)
          → (start - r.base) / 4096 ≤ j
          → j < (start - r.base) / 4096 + (end - start) / 4096
          → (p : ℕ) × (get_elem? r.page_protect j ≡ some p) × (p ≢ 0)))

-- When `virtualProtect` succeeds and the allocations are in order, the allocation that the range starts in
-- had every page of the range committed, its first one with the protection that is reported, and is found
-- in the same place afterwards, where exactly those pages have the new protection.
pub virtual_protect-Protected :
    (host : Host) (address size new old : ℕ) (vm vm' : Vm)
    → IsOrderedFrom 0 vm.regions
    → virtual_protect host address size new vm ≡ (success, some old, vm')
    → Protected
        (align_down address page_size)
        (align_up (add_ptr address size) page_size)
        new
        old
        vm
        vm'
unfolding virtual_protect
virtual_protect-Protected host address size new old vm vm' o h =
    let start : ℕ = align_down address page_size in
    let end : ℕ = align_up (add_ptr address size) page_size in
    elim (Bool-cases ((address == 0) || (size == 0))) [
      | inl t ↦ absurd (grind arith)
      | inr f ↦ elim (Bool-cases (leb end start)) [
        | inl t ↦ absurd (grind arith)
        | inr g ↦ elim (Option-cases (find_region start vm.regions)) [
          | inl n ↦ absurd (grind arith)
          | inr (r, n) ↦ elim (Bool-cases (range_within_region r start (end - start))) [
            | inr t ↦ absurd (grind arith)
            | inl w ↦
                let k : virtual_protect host address size new vm
                    ≡ protect_pages host r start end new vm =
                  rw (virtual_protect, f, g, n, w) refl in
                let (r', (p, er, em, eo, all)) =
                  protect_pages-Repainted host r start end new old vm vm' (sym k ∙ h) in
                let found = find_region-put_region start vm.regions r r' o p.0 p.1 n in
                (r, r', (n, ap (find_region start) er ∙ found, p, em, eo, all))
          ]
        ]
      ]
    ]
