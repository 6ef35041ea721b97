-- ===== src/Vm/Release.antt =====
-- `virtualFree`, `virtualProtect` and the view ranges of src/heap.cpp.
use wibo.Base.{
  ℕ, zero, suc, ◌-◌, ◌/◌, List, Bool, true, false, not, ◌||◌, Option, none, some, ltb, leb, ◌==◌,
  if◌then◌else◌, get_elem?,
}
use wibo.Vm.Align.{
  add_ptr, add_overflows, align_down, align_up, page_size, low_memory_start, top_down_start,
}
use wibo.Vm.Types.{
  Region, VmStatus, success, invalid_parameter, invalid_address, no_access, not_supported,
  no_memory, has_flag, mem_commit, mem_reserve, mem_release, mem_decommit, mem_placeholders,
  mem_mapped, page_noaccess,
}
use wibo.Vm.Mapping.{erase_mapping, record_mapping}
use wibo.Vm.Gap.{find_free_mapping}
use wibo.Vm.Status.{Host, prot_none, posix_protect, vm_status_from_errno}
use wibo.Vm.Regions.{
  Vm, find_region, find_base, put_region, erase_region, range_within_region, mark_pages, set_pages,
  refresh_mapping,
}

-- The branch of `virtualFree` that releases. The allocation is erased before the host is asked.
unfoldable pub release_region : Host → ℕ → ℕ → Vm → VmStatus × Vm
release_region host base region_size vm = elim (find_base base vm.regions) [
  | none ↦ elim (find_region base vm.regions) [
    | none ↦ (invalid_address, vm)
    | some _ ↦ if not (region_size == 0) then (invalid_parameter, vm) else (invalid_address, vm)
  ]
  | some r ↦
      if not (region_size == 0)
      then (invalid_parameter, vm)
      else elim (host.mmap base r.size prot_none) [
        | some err ↦
            (vm_status_from_errno err, record vm { regions = erase_region base vm.regions })
        | none ↦ (
          success,
          record {
            regions = erase_region base vm.regions;
            mappings = erase_mapping base vm.mappings;
          },
        )
      ]
]

-- The end of the branch that decommits.
unfoldable pub decommit_range : Host → Region → ℕ → ℕ → Vm → VmStatus × Vm
decommit_range host r start end vm =
    let len = end - start in
    let r' = mark_pages r start len 0 in
    if leb end start
    then (invalid_parameter, vm)
    else if not (range_within_region r start len)
    then (invalid_address, vm)
    else elim (host.mmap start len prot_none) [
      | some err ↦ (vm_status_from_errno err, vm)
      | none ↦ (
        success,
        record { regions = put_region r' vm.regions; mappings = refresh_mapping r' vm.mappings },
      )
    ]

-- The branch of `virtualFree` that decommits.
unfoldable pub decommit_pages : Host → ℕ → ℕ → Vm → VmStatus × Vm
decommit_pages host request region_size vm = elim (find_region request vm.regions) [
  | none ↦ (invalid_address, vm)
  | some r ↦
      if region_size == 0
      then (if not (request == r.base)
          then (invalid_parameter, vm)
          else decommit_range host r r.base (add_ptr r.base r.size) vm)
      else if add_overflows request region_size
      then (invalid_parameter, vm)
      else decommit_range host r (align_down request page_size)
          (align_up (add_ptr request region_size) page_size) vm
]

-- `virtualFree`
unfoldable pub virtual_free : Host → ℕ → ℕ → ℕ → Vm → VmStatus × Vm
virtual_free host base_address region_size free_type vm =
    let release = has_flag free_type mem_release in
    let decommit = has_flag free_type mem_decommit in
    if base_address == 0
    then (invalid_address, vm)
    else if has_flag free_type mem_placeholders
    then (not_supported, vm)
    else elim release [
      | true ↦
          if decommit
          then (invalid_parameter, vm)
          else release_region host base_address region_size vm
      | false ↦
          if decommit
          then decommit_pages host base_address region_size vm
          else (invalid_parameter, vm)
    ]

-- The loop that looks for a page that is not committed.
unfoldable pub all_committed_from : List ℕ → ℕ → ℕ → Bool
all_committed_from pages first zero = true
all_committed_from pages first (suc count) =
    let rest = all_committed_from pages (suc first) count in
    elim (get_elem? pages first) [ none ↦ false | some p ↦ if p == 0 then false else rest ]

-- `virtualProtect` on the pages of a region. A read past the end of the pages is `none`.
unfoldable pub protect_pages : Host → Region → ℕ → ℕ → ℕ → Vm → VmStatus × Option ℕ × Vm
protect_pages host r start end new_protect vm =
    let first = (start - r.base) / page_size in
    let count = (end - start) / page_size in
    let r' : Region = record r {
      page_protect = set_pages first count new_protect r.page_protect;
    } in
    if count == 0 then (invalid_parameter, none, vm) else elim (get_elem? r.page_protect first) [
      | none ↦ (no_access, none, vm)
      | some previous ↦
          if previous == 0
          then (no_access, none, vm)
          else if not (all_committed_from r.page_protect first count)
          then (no_access, none, vm)
          else elim (host.mprotect start (end - start) (posix_protect new_protect)) [
            | some err ↦ (vm_status_from_errno err, none, vm)
            | none ↦ (
              success,
              some previous,
              record {
                regions = put_region r' vm.regions;
                mappings = refresh_mapping r' vm.mappings;
              },
            )
          ]
    ]

-- `virtualProtect`: the status, the old protection where it is reported, and the allocations.
unfoldable pub virtual_protect : Host → ℕ → ℕ → ℕ → Vm → VmStatus × Option ℕ × Vm
virtual_protect host base_address region_size new_protect vm =
    let start = align_down base_address page_size in
    let end = align_up (add_ptr base_address region_size) page_size in
    if (base_address == 0) || (region_size == 0)
    then (invalid_parameter, none, vm)
    else if leb end start
    then (invalid_parameter, none, vm)
    else elim (find_region start vm.regions) [
      | none ↦ (invalid_address, none, vm)
      | some r ↦
          if not (range_within_region r start (end - start))
          then (invalid_address, none, vm)
          else protect_pages host r start end new_protect vm
    ]

-- `reserveViewRange` with a place for the address, which is `some` on success.
unfoldable pub reserve_view_range : ℕ → ℕ → ℕ → Vm → VmStatus × Option ℕ × Vm
reserve_view_range region_size min_addr max_addr vm =
    let aligned = align_up region_size page_size in
    let lo = if min_addr == 0 then low_memory_start else min_addr in
    let hi = if max_addr == 0 then top_down_start else max_addr in
    if region_size == 0
    then (invalid_parameter, none, vm)
    else if aligned == 0
    then (invalid_parameter, none, vm)
    else if leb hi lo || ltb (hi - lo) aligned
    then (invalid_parameter, none, vm)
    else elim (find_free_mapping aligned lo hi false vm.mappings) [
      | none ↦ (no_memory, none, vm)
      | some candidate ↦ (
        success,
        some candidate,
        record vm {
          mappings =
              record_mapping candidate aligned page_noaccess mem_reserve page_noaccess mem_mapped
                vm.mappings;
        },
      )
    ]

-- `registerViewRange`
unfoldable pub register_view_range : ℕ → ℕ → ℕ → ℕ → Vm → Vm
register_view_range base_address region_size allocation_protect protect vm =
    if base_address == 0 then vm else record vm {
      mappings =
          record_mapping base_address (align_up region_size page_size) allocation_protect mem_commit
            protect mem_mapped vm.mappings;
    }

-- `releaseViewRange`
unfoldable pub release_view_range : ℕ → Vm → Vm
release_view_range base_address vm =
    if base_address == 0
    then vm
    else record vm { mappings = erase_mapping base_address vm.mappings }
