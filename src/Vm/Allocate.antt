-- ===== src/Vm/Allocate.antt =====
-- `virtualReset` and `virtualAlloc` of src/heap.cpp.
use wibo.Base.{
  ℕ, zero, suc, ◌+◌, ◌-◌, ◌*◌, ◌/◌, List, [], ◌∷◌, Bool, true, false, not, ◌&&◌, ◌||◌, ◌⊎◌, inl,
  inr, Option, none, some, ltb, leb, ◌==◌, if◌then◌else◌, get_elem?,
}
use wibo.Vm.Align.{
  add_ptr, add_overflows, align_down, align_up, page_size, virtual_allocation_granularity,
  low_memory_start, top_down_start, two_gb,
}
use wibo.Vm.Types.{
  Region, VmStatus, success, invalid_parameter, invalid_address, not_supported, no_memory, has_flag,
  mem_commit, mem_reserve, mem_reset, mem_top_down, mem_unsupported,
}
use wibo.Vm.Mapping.{Mappings, overlaps_existing}
use wibo.Vm.Gap.{find_free_mapping}
use wibo.Vm.Status.{Host, prot_none, posix_protect, vm_status_from_errno}
use wibo.Vm.Regions.{Vm, find_region, put_region, range_within_region, mark_pages, refresh_mapping}

-- The status, with the variables the caller passed by address and the allocations after the call.
pub record Reply : Type 0 where
  pub status : VmStatus
  pub base : Option ℕ
  pub size : ℕ
  pub vm : Vm

-- Only a base address that was passed is written.
abbrev pub write_base : ℕ → Option ℕ → Option ℕ
write_base v none = none
write_base v (some _) = some v

-- `*baseAddress`, or null.
abbrev pub requested_address : Option ℕ → ℕ
requested_address none = 0
requested_address (some a) = a

-- `virtualReset`
unfoldable pub virtual_reset : Host → ℕ → ℕ → Vm → VmStatus
virtual_reset host base_address region_size vm =
    let start = align_down base_address page_size in
    let end = align_up (add_ptr base_address region_size) page_size in
    let len = end - start in
    if base_address == 0
    then invalid_address
    else if region_size == 0
    then invalid_parameter
    else if add_overflows base_address region_size
    then invalid_parameter
    else if len == 0
    then invalid_parameter
    else elim (find_region start vm.regions) [
      | none ↦ invalid_address
      | some r ↦
          if not (range_within_region r start len)
          then invalid_address
          else elim (host.madvise start len) [
            | none ↦ success
            | some err ↦ vm_status_from_errno err
          ]
    ]

-- Where to reserve, with an address.
unfoldable pub place_at : ℕ → ℕ → Mappings → VmStatus ⊎ (ℕ × ℕ)
place_at request size ms =
    let base = align_down request virtual_allocation_granularity in
    let offset = request - base in
    let len = align_up (add_ptr size offset) page_size in
    if add_overflows offset size
    then inl invalid_parameter
    else if len == 0
    then inl invalid_parameter
    else if leb two_gb base || ltb two_gb (add_ptr base len)
    then inl invalid_address
    else if overlaps_existing base len ms
    then inl invalid_address
    else inr (base, len)

-- Where to reserve, without an address.
unfoldable pub place_anywhere : ℕ → Bool → Mappings → VmStatus ⊎ (ℕ × ℕ)
place_anywhere size top_down ms =
    let len = align_up size page_size in
    if len == 0
    then inl invalid_parameter
    else elim (find_free_mapping len low_memory_start top_down_start top_down ms) [
      | none ↦ inl no_memory
      | some base ↦
          if leb two_gb base || ltb two_gb (add_ptr base len)
          then inl no_memory
          else inr (base, len)
    ]

-- `pageProtect.assign(count, value)`
unfoldable pub assign : ℕ → ℕ → List ℕ
assign zero value = []
assign (suc count) value = value ∷ assign count value

-- The reservation once its place is known.
unfoldable pub reserve_at : Host → Bool → ℕ → ℕ → ℕ × ℕ → Option ℕ → ℕ → Vm → Reply
reserve_at host commit protect type (base, len) arg size vm =
    let r : Region = record {
      base = base;
      size = len;
      allocation_protect = protect;
      type = type;
      page_protect = assign (len / page_size) (if commit then protect else 0);
    } in
    elim (host.mmap base len (if commit then posix_protect protect else prot_none)) [
      | some err ↦ record { status = vm_status_from_errno err; base = arg; size = size; vm = vm }
      | none ↦ record {
        status = success;
        base = write_base base arg;
        size = len;
        vm = record { regions = put_region r vm.regions; mappings = refresh_mapping r vm.mappings };
      }
    ]

-- The inner loop over a run of pages that are not committed: the index of its last page and its length.
unfoldable pub extend_run : List ℕ → ℕ → ℕ → ℕ → ℕ → ℕ × ℕ
extend_run pages first i run_length zero = (i, run_length)
extend_run pages first i run_length (suc left) =
    let rest = extend_run pages first (suc i) (run_length + page_size) left in
    elim (get_elem? pages (first + i + 1)) [
      | none ↦ (i, run_length)
      | some p ↦ if not (p == 0) then (i, run_length) else rest
    ]

-- The outer loop: the runs from page `i` on, or `none` past the end of the pages. Fuel: `page_count - i`.
unfoldable pub collect_runs : List ℕ → ℕ → ℕ → ℕ → ℕ → ℕ → Option (List (ℕ × ℕ))
collect_runs pages start first page_count i zero = some []
collect_runs pages start first page_count i (suc fuel) = elim (leb page_count i) [
  | true ↦ some []
  | false ↦ elim (get_elem? pages (first + i)) [
    | none ↦ none
    | some p ↦ elim (not (p == 0)) [
      | true ↦ collect_runs pages start first page_count (suc i) fuel
      | false ↦
          let run = extend_run pages first i page_size (page_count - 1 - i) in
          elim (collect_runs pages start first page_count (suc run.0) fuel) [
            | none ↦ none
            | some runs ↦ some ((start + i * page_size, run.1) ∷ runs)
          ]
    ]
  ]
]

-- The loop over the runs: the region after it, and the `errno` where a call failed.
unfoldable pub commit_runs : Host → ℕ → List (ℕ × ℕ) → Region → Option ℕ × Region
commit_runs host protect [] r = (none, r)
commit_runs host protect ((base, len) ∷ runs) r =
    elim (host.mmap base len (posix_protect protect)) [
      | some err ↦ (some err, r)
      | none ↦ commit_runs host protect runs (mark_pages r base len protect)
    ]

-- The reply once the runs are committed, or one of them failed.
unfoldable pub commit_reply : ℕ → ℕ → Option ℕ → ℕ → Vm → Option ℕ × Region → Reply
commit_reply start len arg size vm (some err, r) = record {
  status = vm_status_from_errno err;
  base = arg;
  size = size;
  vm = record vm { regions = put_region r vm.regions };
}
commit_reply start len arg size vm (none, r) = record {
  status = success;
  base = write_base start arg;
  size = len;
  vm = record { regions = put_region r vm.regions; mappings = refresh_mapping r vm.mappings };
}

-- The commitment of pages of a region.
unfoldable pub commit_in : Host → ℕ → ℕ → ℕ → Region → Option ℕ → ℕ → Vm → Reply
commit_in host protect start len r arg size vm =
    let page_count = len / page_size in
    elim (collect_runs r.page_protect start ((start - r.base) / page_size) page_count 0
      page_count) [
        | none ↦ record { status = invalid_address; base = arg; size = size; vm = vm }
        | some runs ↦ commit_reply start len arg size vm (commit_runs host protect runs r)
      ]

-- What follows the branch that reserves.
unfoldable pub commit_pages : Host → ℕ → Option ℕ → ℕ → Vm → Reply
commit_pages host protect arg size vm =
    let request = requested_address arg in
    let start = align_down request page_size in
    let end = align_up (add_ptr request size) page_size in
    let len = end - start in
    let fail : VmStatus → Reply = λ s. record { status = s; base = arg; size = size; vm = vm } in
    if request == 0
    then fail invalid_address
    else if add_overflows request size
    then fail invalid_parameter
    else if len == 0
    then fail invalid_parameter
    else elim (find_region start vm.regions) [
      | none ↦ fail invalid_address
      | some r ↦
          if not (range_within_region r start len)
          then fail invalid_address
          else commit_in host protect start len r arg size vm
    ]

-- The branch that resets.
unfoldable pub reset_pages : Host → Option ℕ → ℕ → Vm → Reply
reset_pages host arg size vm =
    let request = requested_address arg in
    let start = align_down request page_size in
    let end = align_up (add_ptr request size) page_size in
    if request == 0
    then record { status = invalid_address; base = arg; size = size; vm = vm }
    else elim (virtual_reset host request size vm) [
      | success ↦ record {
        status = success;
        base = write_base start arg;
        size = end - start;
        vm = vm;
      }
      | s ↦ record { status = s; base = arg; size = size; vm = vm }
    ]

-- `virtualAlloc` with a place for the size, which the variable at `regionSize` is passed as.
unfoldable pub virtual_alloc : Host → Option ℕ → ℕ → ℕ → ℕ → ℕ → Vm → Reply
virtual_alloc host arg size allocation_type protect type vm =
    let request = requested_address arg in
    let commit = has_flag allocation_type mem_commit in
    let reserve =
      has_flag allocation_type mem_reserve
      || (not (has_flag allocation_type mem_reserve) && commit && (request == 0)) in
    let fail : VmStatus → Reply = λ s. record { status = s; base = arg; size = size; vm = vm } in
    if size == 0
    then fail invalid_parameter
    else if has_flag allocation_type mem_unsupported
    then fail not_supported
    else if has_flag allocation_type mem_reset
    then (if reserve || commit then fail invalid_parameter else reset_pages host arg size vm)
    else if not reserve && not commit
    then fail invalid_parameter
    else if reserve
    then elim (if not (request == 0)
        then place_at request size vm.mappings
        else place_anywhere size (has_flag allocation_type mem_top_down) vm.mappings) [
          | inl s ↦ fail s
          | inr place ↦ reserve_at host commit protect type place arg size vm
        ]
    else commit_pages host protect arg size vm
