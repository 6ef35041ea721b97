-- ===== src/Vm/Placement.antt =====
-- Where `virtualAlloc` of src/heap.cpp reserves, and what it leaves behind.
use wibo.Base.{
  ℕ, ◌+◌, ◌-◌, ◌*◌, ◌/◌, ◌%◌, ◌^◌, ◌≤◌, ◌<◌, ◌≡◌, ◌≢◌, ◌⊎◌, inl, inr, refl, sym, ap, ◌∙◌, subst, [],
  ◌∷◌, Bool, true, false, ◌||◌, Option, arith, ltb, leb, ◌==◌, if◌then◌else◌, u32, Bool-cases,
  Option-cases,
}
use wibo.Vm.Align.{
  add_ptr, add_overflows, align_down, align_up, align_down_granularity, align_up_page, page_size,
  virtual_allocation_granularity, two_gb, low_memory_start, top_down_start,
}
use wibo.Vm.Types.{
  Info, Region, VmStatus, success, has_flag, mem_commit, mem_reserve, mem_reset, mem_top_down,
  mem_unsupported,
}
use wibo.Vm.Mapping.{Mappings, put_mapping, record_mapping, overlaps_existing}
use wibo.Vm.Gap.{find_free_mapping}
use wibo.Vm.FreeRange.{IsFree}
use wibo.Vm.FreeScan.{find_free_mapping-IsFree}
use wibo.Vm.Tiling.{IsTiled, IsSortedFrom-IsTiled, overlaps_existing-IsFree}
use wibo.Vm.Status.{Host, posix_protect, prot_none, vm_status_from_errno}
use wibo.Vm.Regions.{Vm, put_region, refresh_mapping}
use wibo.Vm.Allocate.{
  Reply, place_at, place_anywhere, assign, reserve_at, requested_address, write_base, virtual_alloc,
}

put_mapping-IsTiled :
    (lo a : ℕ) (i : Info) (ms : Mappings)
    → IsTiled lo ms
    → lo ≤ a
    → i.base_address ≡ a
    → 0 < i.region_size
    → a + i.region_size ≤ 2 ^ 31
    → IsFree a i.region_size ms
    → IsTiled lo (put_mapping a i ms)
unfolding IsTiled IsFree put_mapping
put_mapping-IsTiled lo a i [] t l b p u f = (l, b, p, u, refl)
put_mapping-IsTiled lo a i ((k, j) ∷ ms) (lk, bk, pk, uk, t) l b p u (f, fs) =
    elim (Bool-cases (ltb a k)) [
      | inl c ↦
          let g : a + i.region_size ≤ k = elim f [ inl x ↦ absurd (grind arith) | inr x ↦ x ] in
          rw c (l, b, p, u, (g, bk, pk, uk, t))
      | inr c ↦
          let g : k + j.region_size ≤ a = elim f [ inl x ↦ x | inr x ↦ absurd (grind arith) ] in
          let d : (a == k) ≡ false = grind arith in
          rw (c, d) (lk, bk, pk, uk, put_mapping-IsTiled (k + j.region_size) a i ms t g b p u fs)
    ]

-- A place for `size` bytes: a multiple of 64 KiB, whole pages, below 2 GiB, and free.
abbrev pub Placed : ℕ → ℕ → ℕ → Mappings → Type 0
Placed size base len ms =
    (base % 65536 ≡ 0)
    × (len % 4096 ≡ 0)
    × (0 < len)
    × (size ≤ len)
    × (base + len ≤ 2 ^ 31)
    × IsFree base len ms

-- With an address, the place covers what was asked for.
place_at-Placed :
    (request size base len : ℕ) (ms : Mappings)
    → request < 2 ^ 32
    → size < 2 ^ 32
    → 0 < size
    → IsTiled 0 ms
    → place_at request size ms ≡ inr (base, len)
    → Placed size base len ms × (base ≤ request) × (request + size ≤ base + len)
unfolding place_at add_overflows
place_at-Placed request size base len ms br bs p t h =
    let b : ℕ = request / 65536 * 65536 in
    let eb : align_down request virtual_allocation_granularity ≡ b =
      align_down_granularity request (omega arith) in
    let n : ℕ = (size + (request - b) + 4095) / 4096 * 4096 in
    let w : add_ptr size (request - b) ≡ size + (request - b) = omega arith in
    let en : align_up (size + (request - b)) page_size ≡ n =
      align_up_page (size + (request - b)) (omega arith) in
    elim (Bool-cases (leb two_gb b || ltb two_gb (add_ptr b n))) [
      | inl c ↦ absurd (grind (arith, eb, w, en, c, h))
      | inr c ↦ elim (Bool-cases (overlaps_existing b n ms)) [
        | inl d ↦ absurd (grind (arith, eb, w, en, c, d, h))
        | inr d ↦
            let q1 : b ≡ base = grind arith in
            let q2 : n ≡ len = grind arith in
            let u : b + n ≤ 2 ^ 31 = grind arith in
            let f : IsFree b n ms =
              overlaps_existing-IsFree b n ms t (omega arith) (omega arith) d in
            let f' : IsFree base len ms =
              subst (λ z. IsFree z len ms) q1 (subst (λ z. IsFree b z ms) q2 f) in
            (
              (omega arith, omega arith, omega arith, omega arith, omega arith, f'),
              omega arith,
              omega arith,
            )
      ]
    ]

place_anywhere-Placed :
    (size base len : ℕ) (top : Bool) (ms : Mappings)
    → size < 2 ^ 31
    → 0 < size
    → IsTiled 0 ms
    → place_anywhere size top ms ≡ inr (base, len)
    → Placed size base len ms
unfolding place_anywhere
place_anywhere-Placed size base len top ms bs p t h =
    let n : ℕ = (size + 4095) / 4096 * 4096 in
    let en : align_up size page_size ≡ n = align_up_page size (omega arith) in
    elim (Option-cases (find_free_mapping n low_memory_start top_down_start top ms)) [
      | inl c ↦ absurd (grind arith)
      | inr (b, c) ↦ elim (Bool-cases (leb two_gb b || ltb two_gb (add_ptr b n))) [
        | inl d ↦ absurd (grind arith)
        | inr d ↦
            let ((m, _, _), f) =
              find_free_mapping-IsFree n low_memory_start top_down_start top ms b (omega arith)
                (omega arith) (IsSortedFrom-IsTiled 0 0 ms t (omega arith)) c in
            let q1 : b ≡ base = grind arith in
            let q2 : n ≡ len = grind arith in
            let u : b + n ≤ 2 ^ 31 = grind arith in
            let r : (n + 4095) / 4096 * 4096 ≡ len = omega arith in
            let f' : IsFree base len ms =
              subst (λ z. IsFree z len ms) q1 (subst (λ z. IsFree b z ms) r f) in
            (omega arith, omega arith, omega arith, omega arith, omega arith, f')
      ]
    ]

refresh_mapping-IsTiled :
    (r : Region) (ms : Mappings)
    → IsTiled 0 ms
    → 0 < r.size
    → r.base + r.size ≤ 2 ^ 31
    → IsFree r.base r.size ms
    → IsTiled 0 (refresh_mapping r ms)
unfolding refresh_mapping record_mapping
refresh_mapping-IsTiled r ms t p u f =
    let e : u32 r.size ≡ r.size = omega arith in
    put_mapping-IsTiled 0 r.base _ ms t (omega arith) (omega arith) (omega arith) (omega arith)
      (subst (λ z. IsFree r.base z ms) (sym e) f)

-- The region that a reservation makes.
abbrev pub new_region : ℕ → ℕ → Bool → ℕ → ℕ → Region
new_region base len commit protect type = record {
  base = base;
  size = len;
  allocation_protect = protect;
  type = type;
  page_protect = assign (len / page_size) (if commit then protect else 0);
}

-- What a successful reservation leaves behind.
abbrev pub Reserved : ℕ → Bool → ℕ → ℕ → Option ℕ → Vm → Reply → Type 0
Reserved size commit protect type arg vm reply =
    (base : ℕ) × (len : ℕ) × (Placed size base len vm.mappings
      × (requested_address arg ≡ 0
          ⊎ (base ≤ requested_address arg) × (requested_address arg + size ≤ base + len))
      × (reply.base ≡ write_base base arg)
      × (reply.size ≡ len)
      × (reply.vm.regions ≡ put_region (new_region base len commit protect type) vm.regions)
      × (reply.vm.mappings ≡ refresh_mapping (new_region base len commit protect type) vm.mappings)
      × IsTiled 0 reply.vm.mappings)

pub errno-Failure : (err : ℕ) → vm_status_from_errno err ≢ success
unfolding vm_status_from_errno
errno-Failure err h = ground arith

reserve_at-Reserved :
    (host : Host) (arg : Option ℕ) (size protect type base len : ℕ) (commit : Bool) (vm : Vm)
    → IsTiled 0 vm.mappings
    → Placed size base len vm.mappings
    → (requested_address arg ≡ 0)
      ⊎ ((base ≤ requested_address arg) × (requested_address arg + size ≤ base + len))
    → (reserve_at host commit protect type (base, len) arg size vm).status ≡ success
    → Reserved size commit protect type arg vm
        (reserve_at host commit protect type (base, len) arg size vm)
unfolding reserve_at
reserve_at-Reserved host arg size protect type base len commit vm t p c h =
    let r : Region = new_region base len commit protect type in
    elim (Option-cases (host.mmap base len (if commit then posix_protect protect else prot_none))) [
      | inr (err, m) ↦ absurd (errno-Failure err (sym (rw (reserve_at, m) refl) ∙ h))
      | inl m ↦
          let tiled : IsTiled 0 (refresh_mapping r vm.mappings) =
            refresh_mapping-IsTiled r vm.mappings t p.2 p.4 p.5 in
          rw (reserve_at, m) (base, len, (p, c, refl, refl, refl, refl, tiled))
    ]

Place-cases :
    (o : VmStatus ⊎ (ℕ × ℕ))
    → ((s : VmStatus) × (o ≡ inl s)) ⊎ ((b : ℕ) × (l : ℕ) × (o ≡ inr (b, l)))
Place-cases (inl s) = inl (s, refl)
Place-cases (inr (b, l)) = inr (b, l, refl)

place_at-Failure : (request size : ℕ) (ms : Mappings) → place_at request size ms ≢ inl success
unfolding place_at
place_at-Failure request size ms h = ground arith

place_anywhere-Failure :
    (size : ℕ) (top : Bool) (ms : Mappings) → place_anywhere size top ms ≢ inl success
unfolding place_anywhere
place_anywhere-Failure size top ms h = ground arith

-- When a call of `virtualAlloc` that asks to reserve succeeds and the mappings do not overlap, the place is
-- whole pages from a multiple of 64 KiB on, below 2 GiB, met no mapping, has room for what was asked, and
-- covers the address asked for, if any; place and size are returned, a region with all its pages committed
-- or none is recorded there, and the mappings still do not overlap.
pub virtual_alloc-Reserved :
    (host : Host) (arg : Option ℕ) (size allocation_type protect type : ℕ) (vm : Vm)
    → IsTiled 0 vm.mappings
    → size < 2 ^ 31
    → requested_address arg < 2 ^ 32
    → has_flag allocation_type mem_reserve ≡ true
    → (virtual_alloc host arg size allocation_type protect type vm).status ≡ success
    → Reserved size
        (has_flag allocation_type mem_commit)
        protect
        type
        arg
        vm
        (virtual_alloc host arg size allocation_type protect type vm)
unfolding virtual_alloc
virtual_alloc-Reserved host arg size ty protect type vm t bs br res h =
    let commit : Bool = has_flag ty mem_commit in
    elim (Bool-cases (size == 0)) [
      | inl c ↦ absurd (grind (arith, c, h))
      | inr c ↦ elim (Bool-cases (has_flag ty mem_unsupported)) [
        | inl d ↦ absurd (grind (arith, c, d, h))
        | inr d ↦ elim (Bool-cases (has_flag ty mem_reset)) [
          | inl e ↦ absurd (grind (arith, c, d, e, res, h))
          | inr e ↦ elim (Bool-cases (requested_address arg == 0)) [
            | inl f ↦
                elim (Place-cases (place_anywhere size (has_flag ty mem_top_down) vm.mappings)) [
                  | inl (s, n) ↦
                      let k : (virtual_alloc host arg size ty protect type vm).status ≡ s =
                        rw (virtual_alloc, c, d, e, res, f, n) refl in
                      absurd (
                        place_anywhere-Failure size (has_flag ty mem_top_down) vm.mappings
                          (n ∙ ap inl (sym k ∙ h)))
                  | inr (b, l, n) ↦
                      let k : virtual_alloc host arg size ty protect type vm
                          ≡ reserve_at host commit protect type (b, l) arg size vm =
                        rw (virtual_alloc, c, d, e, res, f, n) refl in
                      let p =
                        place_anywhere-Placed size b l (has_flag ty mem_top_down) vm.mappings bs
                          (grind arith) t n in
                      subst (λ z. Reserved size commit protect type arg vm z) (sym k)
                        (reserve_at-Reserved host arg size protect type b l commit vm t p
                          (inl (grind arith)) (ap (λ z. z.status) (sym k) ∙ h))
                ]
            | inr f ↦ elim (Place-cases (place_at (requested_address arg) size vm.mappings)) [
              | inl (s, n) ↦
                  let k : (virtual_alloc host arg size ty protect type vm).status ≡ s =
                    rw (virtual_alloc, c, d, e, res, f, n) refl in
                  absurd (
                    place_at-Failure (requested_address arg) size vm.mappings
                      (n ∙ ap inl (sym k ∙ h)))
              | inr (b, l, n) ↦
                  let k : virtual_alloc host arg size ty protect type vm
                      ≡ reserve_at host commit protect type (b, l) arg size vm =
                    rw (virtual_alloc, c, d, e, res, f, n) refl in
                  let (p, c1, c2) =
                    place_at-Placed (requested_address arg) size b l vm.mappings br (omega arith)
                      (grind arith) t n in
                  subst (λ z. Reserved size commit protect type arg vm z) (sym k)
                    (reserve_at-Reserved host arg size protect type b l commit vm t p (inr (c1, c2))
                      (ap (λ z. z.status) (sym k) ∙ h))
            ]
          ]
        ]
      ]
    ]
