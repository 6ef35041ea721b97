-- ===== src/Vm/Commitment.antt =====
-- A commitment by `virtualAlloc` of src/heap.cpp as a whole.
use wibo.Base.{
  ℕ, ◌+◌, ◌-◌, ◌/◌, ◌≤◌, ◌≡◌, ◌≢◌, ◌⊎◌, inl, inr, refl, sym, ap, ◌∙◌, subst, true, false, Option,
  none, some, arith, ◌==◌, Bool-cases, Option-cases,
}
use wibo.Vm.Align.{add_ptr, add_overflows, align_down, align_up, page_size}
use wibo.Vm.Types.{Region, success, has_flag, mem_commit, mem_reserve, mem_reset, mem_unsupported}
use wibo.Vm.Status.{Host, vm_status_from_errno}
use wibo.Vm.Regions.{Vm, find_region, range_within_region, refresh_mapping}
use wibo.Vm.Allocate.{
  Reply, write_base, requested_address, collect_runs, commit_runs, commit_reply, commit_in,
  commit_pages, virtual_alloc,
}
use wibo.Vm.Blocks.{IsOrderedFrom, find_region-put_region}
use wibo.Vm.Placement.{errno-Failure}
use wibo.Vm.Commit.{Filled, collect_runs-Filled}

-- What a commitment of the pages from `start` to `end` does.
abbrev pub Committed : ℕ → ℕ → ℕ → Option ℕ → Vm → Reply → Type 0
Committed start end protect arg vm reply =
    (r : Region) × (r' : Region) × ((find_region start vm.regions ≡ some r)
      × (find_region start reply.vm.regions ≡ some r')
      × Filled protect ((start - r.base) / 4096) ((start - r.base) / 4096 + (end - start) / 4096) r
          r'
      × (reply.vm.mappings ≡ refresh_mapping r' vm.mappings)
      × (reply.base ≡ write_base start arg)
      × (reply.size ≡ end - start))

Outcome-cases :
    (o : Option ℕ × Region)
    → ((err : ℕ) × (r : Region) × (o ≡ (some err, r))) ⊎ ((r : Region) × (o ≡ (none, r)))
Outcome-cases (some err, r) = inl (err, r, refl)
Outcome-cases (none, r) = inr (r, refl)

commit_in-Committed :
    (host : Host) (protect start end : ℕ) (r : Region) (arg : Option ℕ) (size : ℕ) (vm : Vm)
    → IsOrderedFrom 0 vm.regions
    → find_region start vm.regions ≡ some r
    → r.base ≤ start
    → (commit_in host protect start (end - start) r arg size vm).status ≡ success
    → Committed start end protect arg vm (commit_in host protect start (end - start) r arg size vm)
unfolding commit_in commit_reply
commit_in-Committed host protect start end r arg size vm o fr ge h =
    let n : ℕ = (end - start) / 4096 in
    let first : ℕ = (start - r.base) / 4096 in
    elim (Option-cases (collect_runs r.page_protect start first n 0 n)) [
      | inl e ↦ absurd (grind (arith, e, h))
      | inr (runs, e) ↦ elim (Outcome-cases (commit_runs host protect runs r)) [
        | inl (err, r', q) ↦
            let k : (commit_in host protect start (end - start) r arg size vm).status
                ≡ vm_status_from_errno err =
              rw (commit_in, e, q) refl in
            absurd (errno-Failure err (sym k ∙ h))
        | inr (r', q) ↦
            let k : commit_in host protect start (end - start) r arg size vm
                ≡ commit_reply start (end - start) arg size vm (none, r') =
              rw (commit_in, e, q) refl in
            let z : first + 0 ≡ first = omega arith in
            let f : Filled protect (first + 0) (first + n) r r' =
              collect_runs-Filled host protect start first n r.page_protect n 0 runs r r'
                (omega arith) ge refl (λ j l. refl) e q in
            let f' : Filled protect first (first + n) r r' =
              subst (λ x. Filled protect x (first + n) r r') z f in
            subst (λ x. Committed start end protect arg vm x) (sym k)
              (
                r,
                r',
                (
                  fr,
                  find_region-put_region start vm.regions r r' o f'.0 f'.1 fr,
                  f',
                  refl,
                  refl,
                  refl,
                ),
              )
      ]
    ]

range_within_region-base :
    (r : Region) (start n : ℕ) → range_within_region r start n ≡ true → r.base ≤ start
unfolding range_within_region
range_within_region-base r start n h = grind arith

commit_pages-Committed :
    (host : Host) (protect : ℕ) (arg : Option ℕ) (size : ℕ) (vm : Vm)
    → IsOrderedFrom 0 vm.regions
    → (commit_pages host protect arg size vm).status ≡ success
    → Committed
        (align_down (requested_address arg) page_size)
        (align_up (add_ptr (requested_address arg) size) page_size)
        protect
        arg
        vm
        (commit_pages host protect arg size vm)
unfolding commit_pages
commit_pages-Committed host protect arg size vm o h =
    let a : ℕ = requested_address arg in
    let start : ℕ = align_down a page_size in
    let end : ℕ = align_up (add_ptr a size) page_size in
    elim (Bool-cases (a == 0)) [
      | inl c ↦ absurd (grind (arith, c, h))
      | inr c ↦ elim (Bool-cases (add_overflows a size)) [
        | inl d ↦ absurd (grind (arith, c, d, h))
        | inr d ↦ elim (Bool-cases (end - start == 0)) [
          | inl e ↦ absurd (grind (arith, c, d, e, h))
          | inr e ↦ elim (Option-cases (find_region start vm.regions)) [
            | inl n ↦ absurd (grind (arith, c, d, e, n, h))
            | inr (r, n) ↦ elim (Bool-cases (range_within_region r start (end - start))) [
              | inr w ↦ absurd (grind (arith, c, d, e, n, w, h))
              | inl w ↦
                  let k : commit_pages host protect arg size vm
                      ≡ commit_in host protect start (end - start) r arg size vm =
                    rw (commit_pages, c, d, e, n, w) refl in
                  subst (λ x. Committed start end protect arg vm x) (sym k)
                    (commit_in-Committed host protect start end r arg size vm o n
                      (range_within_region-base r start (end - start) w)
                      (ap (λ x. x.status) (sym k) ∙ h))
            ]
          ]
        ]
      ]
    ]

-- When a call of `virtualAlloc` that commits pages at an address and does not reserve succeeds, and the
-- regions are in order, every page of the range that was not committed has the new protection, every other
-- page of its region is as it was, the region is found in its place, its mapping is refreshed, and the
-- start and the length of the range in whole pages are returned.
pub virtual_alloc-Committed :
    (host : Host) (arg : Option ℕ) (size allocation_type protect type : ℕ) (vm : Vm)
    → IsOrderedFrom 0 vm.regions
    → has_flag allocation_type mem_commit ≡ true
    → has_flag allocation_type mem_reserve ≡ false
    → requested_address arg ≢ 0
    → (virtual_alloc host arg size allocation_type protect type vm).status ≡ success
    → Committed
        (align_down (requested_address arg) page_size)
        (align_up (add_ptr (requested_address arg) size) page_size)
        protect
        arg
        vm
        (virtual_alloc host arg size allocation_type protect type vm)
unfolding virtual_alloc
virtual_alloc-Committed host arg size ty protect type vm o cm res nz h =
    let a : (requested_address arg == 0) ≡ false = grind arith in
    elim (Bool-cases (size == 0)) [
      | inl c ↦ absurd (grind (arith, c, h))
      | inr c ↦ elim (Bool-cases (has_flag ty mem_unsupported)) [
        | inl d ↦ absurd (grind (arith, c, d, h))
        | inr d ↦ elim (Bool-cases (has_flag ty mem_reset)) [
          | inl e ↦ absurd (grind (arith, c, d, e, cm, h))
          | inr e ↦
              let k : virtual_alloc host arg size ty protect type vm
                  ≡ commit_pages host protect arg size vm =
                rw (virtual_alloc, c, d, e, res, cm, a) refl in
              subst
                (λ x.
                  Committed (align_down (requested_address arg) page_size)
                    (align_up (add_ptr (requested_address arg) size) page_size) protect arg vm x)
                (sym k)
                (commit_pages-Committed host protect arg size vm o (ap (λ x. x.status) (sym k) ∙ h))
        ]
      ]
    ]
