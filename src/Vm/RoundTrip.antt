-- ===== src/Vm/RoundTrip.antt =====
-- Releasing what `virtualAlloc` of src/heap.cpp reserved.
use wibo.Base.{
  ℕ, ◌+◌, ◌<◌, ◌^◌, ◌≡◌, ◌≢◌, inl, inr, refl, sym, ap, ◌∙◌, subst, [], ◌∷◌, true, false, Option,
  none, some, arith, ltb, ◌==◌, if◌then◌else◌, same_some, Bool-cases,
}
use wibo.Vm.Types.{Info, Region, success, has_flag, mem_commit, mem_reserve, mem_release}
use wibo.Vm.Mapping.{Mappings, put_mapping, erase_mapping, record_mapping}
use wibo.Vm.FreeRange.{IsFree}
use wibo.Vm.Tiling.{IsTiled}
use wibo.Vm.Status.{Host, prot_none}
use wibo.Vm.Regions.{Regions, Vm, put_region, erase_region, find_base, refresh_mapping}
use wibo.Vm.Allocate.{write_base, requested_address, virtual_alloc}
use wibo.Vm.Release.{release_region, virtual_free}
use wibo.Vm.Placement.{new_region, virtual_alloc-Reserved}

-- The mapping with a key.
unfoldable pub find_mapping : ℕ → Mappings → Option Info
find_mapping key [] = none
find_mapping key ((k, i) ∷ ms) = if k == key then some i else find_mapping key ms

-- No mapping starts where a range is free.
find_mapping-IsFree :
    (lo a n : ℕ) (ms : Mappings) → IsTiled lo ms → 0 < n → IsFree a n ms → find_mapping a ms ≡ none
unfolding find_mapping IsTiled IsFree
find_mapping-IsFree lo a n [] t p f = refl
find_mapping-IsFree lo a n ((k, i) ∷ ms) (l, b, q, u, t) p (f, fs) = elim (Bool-cases (k == a)) [
  | inl e ↦ absurd (grind (arith, f, e))
  | inr e ↦ rw e (find_mapping-IsFree (k + i.region_size) a n ms t p fs)
]

erase_mapping-put_mapping :
    (key : ℕ) (i : Info) (ms : Mappings)
    → find_mapping key ms ≡ none
    → erase_mapping key (put_mapping key i ms) ≡ ms
unfolding find_mapping erase_mapping put_mapping
erase_mapping-put_mapping key i [] h = ground arith
erase_mapping-put_mapping key i ((k, j) ∷ ms) h = elim (Bool-cases (k == key)) [
  | inl e ↦ absurd (grind (arith, e, h))
  | inr e ↦
      let f : (key == k) ≡ false = grind arith in
      let same : (key == key) ≡ true = grind arith in
      let h' : find_mapping key ms ≡ none =
        sym (ap (λ z. if z then some j else find_mapping key ms) e) ∙ h in
      elim (Bool-cases (ltb key k)) [
        | inl c ↦ rw (c, same) refl
        | inr c ↦ rw (c, f, f) (ap (λ z. (k, j) ∷ z) (erase_mapping-put_mapping key i ms h'))
      ]
]

find_base-put_region :
    (r : Region) (rs : Regions)
    → find_base r.base rs ≡ none
    → (find_base r.base (put_region r rs) ≡ some r) × (erase_region r.base (put_region r rs) ≡ rs)
unfolding find_base erase_region put_region
find_base-put_region r [] h =
    let same : (r.base == r.base) ≡ true = grind arith in (rw same refl, rw same refl)
find_base-put_region r (x ∷ rs) h = elim (Bool-cases (x.base == r.base)) [
  | inl e ↦ absurd (grind (arith, e, h))
  | inr e ↦
      let f : (r.base == x.base) ≡ false = grind arith in
      let same : (r.base == r.base) ≡ true = grind arith in
      let h' : find_base r.base rs ≡ none =
        sym (ap (λ z. if z then some x else find_base r.base rs) e) ∙ h in
      elim (Bool-cases (ltb r.base x.base)) [
        | inl c ↦ (rw (c, same) refl, rw (c, same) refl)
        | inr c ↦
            let (p, q) = find_base-put_region r rs h' in
            (rw (c, f, e) p, rw (c, f, e) (ap (λ z. x ∷ z) q))
      ]
]

release_reserved :
    (host : Host) (r : Region) (vm : Vm)
    → find_base r.base vm.regions ≡ none
    → find_mapping r.base vm.mappings ≡ none
    → host.mmap r.base r.size prot_none ≡ none
    → r.base ≢ 0
    → virtual_free host r.base 0 mem_release
        (record { regions = put_region r vm.regions; mappings = refresh_mapping r vm.mappings })
      ≡ (success, vm)
unfolding virtual_free release_region refresh_mapping record_mapping
release_reserved host r vm fb fm hm z =
    let nz : (r.base == 0) ≡ false = grind arith in
    let (p, q) = find_base-put_region r vm.regions fb in
    let m : erase_mapping r.base (refresh_mapping r vm.mappings) ≡ vm.mappings =
      erase_mapping-put_mapping r.base _ vm.mappings fm in
    let w : Vm = record {
      regions = put_region r vm.regions;
      mappings = refresh_mapping r vm.mappings;
    } in
    let k : virtual_free host r.base 0 mem_release w ≡ release_region host r.base 0 w =
      rw nz refl in
    k ∙ rw (release_region, p, hm, q, m) refl

write_base-some : (b base : ℕ) (arg : Option ℕ) → write_base b arg ≡ some base → b ≡ base
write_base-some b base none h = absurd (grind arith)
write_base-some b base (some a) h = same_some refl h

-- A reservation that succeeds is undone by releasing it. When the mappings do not overlap, every region
-- is mapped, the size is below 2 ^ 31 and the address asked for below 2 ^ 32, the caller asked to reserve,
-- the call succeeded and returned an address other than 0, and the host's mmap over the range succeeds,
-- then freeing that address with MEM_RELEASE and size 0 succeeds and leaves the regions and the mappings
-- as they were.
pub virtual_alloc-virtual_free :
    (host host' : Host) (arg : Option ℕ) (size allocation_type protect type : ℕ) (vm : Vm)
    (base : ℕ)
    → IsTiled 0 vm.mappings
    → ((a : ℕ) → find_mapping a vm.mappings ≡ none → find_base a vm.regions ≡ none)
    → size < 2 ^ 31
    → requested_address arg < 2 ^ 32
    → has_flag allocation_type mem_reserve ≡ true
    → (virtual_alloc host arg size allocation_type protect type vm).status ≡ success
    → (virtual_alloc host arg size allocation_type protect type vm).base ≡ some base
    → base ≢ 0
    → host'.mmap base (virtual_alloc host arg size allocation_type protect type vm).size prot_none
      ≡ none
    → virtual_free host' base 0 mem_release
        (virtual_alloc host arg size allocation_type protect type vm).vm
      ≡ (success, vm)
virtual_alloc-virtual_free host host' arg size ty protect type vm base t mapped bs ba fl ok eb nz
      hm =
    let (b, l, (p, _, e1, e2, e3, e4, _)) =
      virtual_alloc-Reserved host arg size ty protect type vm t bs ba fl ok in
    let same : b ≡ base = write_base-some b base arg (sym e1 ∙ eb) in
    let fm : find_mapping b vm.mappings ≡ none = find_mapping-IsFree 0 b l vm.mappings t p.2 p.5 in
    let hm' : host'.mmap b l prot_none ≡ none = rw (same, sym e2) hm in
    let k =
      release_reserved host' (new_region b l (has_flag ty mem_commit) protect type) vm (mapped b fm)
        fm hm' (λ z. nz (sym same ∙ z)) in
    let r : Region = new_region b l (has_flag ty mem_commit) protect type in
    let w : Vm = record {
      regions = put_region r vm.regions;
      mappings = refresh_mapping r vm.mappings;
    } in
    let e : (virtual_alloc host arg size ty protect type vm).vm ≡ w =
      λ i. record { regions = e3 i; mappings = e4 i } in
    subst (λ z. virtual_free host' base 0 mem_release z ≡ (success, vm)) (sym e)
      (subst (λ z. virtual_free host' z 0 mem_release w ≡ (success, vm)) same k)
