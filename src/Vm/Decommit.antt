-- ===== src/Vm/Decommit.antt =====
-- What decommitting with `virtualFree` of src/heap.cpp does to an allocation.
use wibo.Base.{
  ℕ, ◌+◌, ◌-◌, ◌*◌, ◌/◌, ◌^◌, ◌≤◌, ◌<◌, ◌≡◌, inl, inr, refl, sym, ap, ◌∙◌, true, false, some, arith,
  leb, ◌==◌, if◌then◌else◌, length, Bool-cases, Option-cases,
}
use wibo.Vm.Align.{add_ptr, add_overflows, align_down, align_up, page_size}
use wibo.Vm.Types.{Region, success, mem_decommit}
use wibo.Vm.Status.{Host, prot_none, vm_status_from_errno}
use wibo.Vm.Regions.{
  Vm, region_end, find_region, range_within_region, mark_pages, put_region, refresh_mapping,
}
use wibo.Vm.Release.{decommit_range, decommit_pages, virtual_free}
use wibo.Vm.Pages.{get_elem?-set_pages}
use wibo.Vm.Blocks.{IsOrderedFrom, Repainted, find_region-put_region}
use wibo.Vm.Placement.{errno-Failure}

-- The pages of a region cover it, below 2 GiB.
abbrev pub IsWhole : Region → Type 0
IsWhole r = (length r.page_protect * 4096 ≡ r.size) × (r.base + r.size ≤ 2 ^ 31)

-- What decommitting the pages from `start` to `end` of the region at `a` does.
abbrev pub Decommitted : ℕ → ℕ → ℕ → Vm → Vm → Type 0
Decommitted a start end vm vm' =
    (r : Region) × (r' : Region) × ((find_region a vm.regions ≡ some r)
      × (find_region a vm'.regions ≡ some r')
      × (r.base ≤ start)
      × (end ≤ r.base + r.size)
      × Repainted r r' ((start - r.base) / 4096) ((end - start) / 4096) 0
      × (vm'.mappings ≡ refresh_mapping r' vm.mappings))

range_within_region-bounds :
    (r : Region) (start end : ℕ)
    → r.base + r.size ≤ 2 ^ 31
    → start < end
    → end < 2 ^ 64
    → range_within_region r start (end - start) ≡ true
    → (r.base ≤ start) × (end ≤ r.base + r.size)
unfolding range_within_region region_end add_overflows
range_within_region-bounds r start end u l w h =
    let nz : (end - start == 0) ≡ false = grind arith in
    let e : add_ptr r.base r.size ≡ r.base + r.size = omega arith in
    let a : add_ptr start (end - start) ≡ end = omega arith in (grind arith, grind arith)

decommit_range-Decommitted :
    (host : Host) (a start end : ℕ) (r : Region) (vm vm' : Vm)
    → IsOrderedFrom 0 vm.regions
    → find_region a vm.regions ≡ some r
    → IsWhole r
    → end < 2 ^ 64
    → decommit_range host r start end vm ≡ (success, vm')
    → Decommitted a start end vm vm'
unfolding decommit_range mark_pages
decommit_range-Decommitted host a start end r vm vm' o fr (whole, u) w h =
    elim (Bool-cases (leb end start)) [
      | inl t ↦ absurd (grind (arith, t, h))
      | inr t ↦ elim (Bool-cases (range_within_region r start (end - start))) [
        | inr f ↦ absurd (grind (arith, t, f, h))
        | inl f ↦ elim (Option-cases (host.mmap start (end - start) prot_none)) [
          | inr (err, m) ↦
              let q : decommit_range host r start end vm ≡ (vm_status_from_errno err, vm) =
                rw (decommit_range, t, f, m) refl in
              let k : vm_status_from_errno err ≡ success = ap (λ z. z.0) (sym q ∙ h) in
              absurd (errno-Failure err k)
          | inl m ↦
              let r' : Region = mark_pages r start (end - start) 0 in
              let lt : start < end = grind arith in
              let (l, e) = range_within_region-bounds r start end u lt w f in
              let k : decommit_range host r start end vm ≡ (
                success,
                record {
                  regions = put_region r' vm.regions;
                  mappings = refresh_mapping r' vm.mappings;
                },
              ) =
                rw (decommit_range, t, f, m) refl in
              let v = sym h ∙ k in
              (
                r,
                r',
                (
                  fr,
                  ap (λ z. find_region a z.1.regions) v
                      ∙ find_region-put_region a vm.regions r r' o refl refl fr,
                  l,
                  e,
                  (
                    refl,
                    refl,
                    refl,
                    refl,
                    λ j.
                        get_elem?-set_pages ((start - r.base) / 4096) ((end - start) / 4096) 0
                          r.page_protect j (omega (arith, l, e, whole, lt)),
                  ),
                  ap (λ z. z.1.mappings) v,
                ),
              )
        ]
      ]
    ]

-- A call of `virtualFree` with MEM_DECOMMIT that succeeds marks as not committed exactly the pages that
-- the range touches, or all of the region's when the size is 0, which lie within the region; the region is
-- found in its place and its mapping is refreshed. The regions are in order, and the pages of the region
-- asked for cover it, below 2 GiB.
pub virtual_free-Decommitted :
    (host : Host) (address size : ℕ) (r : Region) (vm vm' : Vm)
    → IsOrderedFrom 0 vm.regions
    → find_region address vm.regions ≡ some r
    → IsWhole r
    → align_up (add_ptr address size) page_size < 2 ^ 64
    → virtual_free host address size mem_decommit vm ≡ (success, vm')
    → Decommitted address
        (if size == 0 then r.base else align_down address page_size)
        (if size == 0 then r.base + r.size else align_up (add_ptr address size) page_size)
        vm
        vm'
unfolding virtual_free decommit_pages
virtual_free-Decommitted host address size r vm vm' o fr whole w h =
    elim (Bool-cases (address == 0)) [
      | inl t ↦ absurd (grind (arith, t, h))
      | inr nz ↦
          let d : decommit_pages host address size vm ≡ (success, vm') =
            sym (rw (virtual_free, nz) refl) ∙ h in
          elim (Bool-cases (size == 0)) [
            | inl t ↦ elim (Bool-cases (address == r.base)) [
              | inr f ↦ absurd (grind (arith, fr, t, f, d))
              | inl f ↦
                  let e : add_ptr r.base r.size ≡ r.base + r.size = omega (arith, whole.1) in
                  rw t (
                    decommit_range-Decommitted host address r.base (r.base + r.size) r vm vm' o fr
                      whole (omega (arith, whole.1))
                      (sym (rw (decommit_pages, fr, t, f, e) refl) ∙ d))
            ]
            | inr t ↦ elim (Bool-cases (add_overflows address size)) [
              | inl f ↦ absurd (grind (arith, fr, t, f, d))
              | inr f ↦ rw t (
                  decommit_range-Decommitted host address (align_down address page_size)
                    (align_up (add_ptr address size) page_size) r vm vm' o fr whole w
                    (sym (rw (decommit_pages, fr, t, f) refl) ∙ d))
            ]
          ]
    ]
