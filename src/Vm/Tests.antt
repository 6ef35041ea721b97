-- ===== src/Vm/Tests.antt =====
-- Runs of the guest address space: two allocations, and the calls that the other modules speak of.
use wibo.Base.{ℕ, ◌≡◌, refl, [], ◌∷◌, true, false, Option, none, some, arith}
use wibo.Vm.Align.{align_down, align_up, page_size, low_memory_start, top_down_start}
use wibo.Vm.Types.{mem_release, Info, Region, VmStatus, success, invalid_address}
use wibo.Vm.Mapping.{Mappings}
use wibo.Vm.Gap.{find_free_mapping}
use wibo.Vm.FreeRange.{Fits, IsFree, IsSortedFrom}
use wibo.Vm.FreeScan.{find_free_mapping-IsFree}
use wibo.Vm.Tiling.{IsTiled}
use wibo.Vm.Status.{Host}
use wibo.Vm.Regions.{Vm, find_region, find_base}
use wibo.Vm.Allocate.{Reply, virtual_alloc}
use wibo.Vm.Release.{virtual_free, virtual_free, virtual_protect}
use wibo.Vm.Blocks.{
  IsOrderedFrom, ReportsRun, Protected, virtual_query-ReportsRun, virtual_protect-Protected,
}
use wibo.Vm.Commitment.{Committed, virtual_alloc-Committed}
use wibo.Vm.Decommit.{Decommitted, virtual_free-Decommitted}
use wibo.Vm.RoundTrip.{find_mapping, virtual_alloc-virtual_free}
use wibo.Vm.Placement.{Reserved, virtual_alloc-Reserved}

abbrev kind_host : Host
kind_host = record { mmap = λ a n p. none; mprotect = λ a n p. none; madvise = λ a n. none }

abbrev mapping : ℕ → ℕ → ℕ × Info
mapping base size = (
  base,
  record {
    base_address = base;
    allocation_base = base;
    allocation_protect = 4;
    region_size = size;
    state = 0x1000;
    protect = 4;
    type = 0x20000;
  },
)

abbrev two_mappings : Mappings
two_mappings = mapping 0x110000 0x4000 ∷ (mapping 0x200000 0x3000 ∷ [])

abbrev four_pages : Region
four_pages = record {
  base = 0x110000;
  size = 0x4000;
  allocation_protect = 4;
  type = 0x20000;
  page_protect = 4 ∷ (4 ∷ (4 ∷ (0 ∷ [])));
}

abbrev three_pages : Region
three_pages = record {
  base = 0x200000;
  size = 0x3000;
  allocation_protect = 4;
  type = 0x20000;
  page_protect = 2 ∷ (2 ∷ (2 ∷ []));
}

abbrev two_regions : Vm
two_regions = record { regions = four_pages ∷ (three_pages ∷ []); mappings = two_mappings }

two_mappings-IsTiled : IsTiled 0 two_mappings
unfolding IsTiled
two_mappings-IsTiled = (
  omega arith,
  refl,
  omega arith,
  omega arith,
  (omega arith, refl, omega arith, omega arith, refl),
)

two_mappings-IsSortedFrom : IsSortedFrom 0 two_mappings
unfolding IsSortedFrom
two_mappings-IsSortedFrom =
    (omega arith, omega arith, omega arith, (omega arith, omega arith, omega arith, refl))

two_regions-IsOrderedFrom : IsOrderedFrom 0 two_regions.regions
unfolding IsOrderedFrom
two_regions-IsOrderedFrom = (omega arith, (omega arith, refl))

found_below :
    find_free_mapping 0x5000 low_memory_start top_down_start false two_mappings ≡ some 0x120000
unfolding find_free_mapping align_up wibo.Vm.Gap.scan_mappings wibo.Vm.Gap.visit wibo.Vm.Gap.advance
    wibo.Vm.Gap.consider_gap wibo.Vm.Gap.try_gap align_down wibo.Vm.Gap.finish_search
    wibo.Vm.Gap.better
found_below = refl

found_on_top :
    find_free_mapping 0x5000 low_memory_start top_down_start true two_mappings ≡ some 0x7EFF0000
unfolding find_free_mapping align_up wibo.Vm.Gap.scan_mappings wibo.Vm.Gap.visit wibo.Vm.Gap.advance
    wibo.Vm.Gap.consider_gap wibo.Vm.Gap.try_gap align_down wibo.Vm.Gap.finish_search
    wibo.Vm.Gap.better
found_on_top = refl

find_free_mapping-IsFree_example :
    Fits 0x5000 low_memory_start top_down_start 0x120000 × IsFree 0x120000 0x5000 two_mappings
find_free_mapping-IsFree_example =
    find_free_mapping-IsFree 0x5000 low_memory_start top_down_start false two_mappings 0x120000
      (omega arith) (omega arith) two_mappings-IsSortedFrom found_below

reserved :
    (virtual_alloc kind_host (some 0x12345) 0x2000 0x3000 4 0x20000 two_regions).status ≡ success
unfolding virtual_alloc wibo.Vm.Allocate.place_at wibo.Vm.Align.add_overflows align_down align_up
    wibo.Vm.Mapping.overlaps_existing wibo.Vm.Mapping.overlaps_from wibo.Vm.Mapping.from_floor
    wibo.Vm.Allocate.reserve_at
reserved = refl

overlapping :
    (virtual_alloc kind_host (some 0x111000) 0x2000 0x3000 4 0x20000 two_regions).status
    ≡ invalid_address
unfolding virtual_alloc wibo.Vm.Allocate.place_at wibo.Vm.Align.add_overflows align_down align_up
    wibo.Vm.Mapping.overlaps_existing wibo.Vm.Mapping.overlaps_from wibo.Vm.Mapping.from_floor
    wibo.Vm.Allocate.reserve_at
overlapping = refl

virtual_alloc-Reserved_example :
    Reserved 0x2000 true 4 0x20000
      (some 0x12345)
      two_regions
      (virtual_alloc kind_host (some 0x12345) 0x2000 0x3000 4 0x20000 two_regions)
virtual_alloc-Reserved_example =
    virtual_alloc-Reserved kind_host (some 0x12345) 0x2000 0x3000 4 0x20000 two_regions
      two_mappings-IsTiled (omega arith) (omega arith) refl reserved

queried_region : find_region (align_down 0x111234 page_size) two_regions.regions ≡ some four_pages
unfolding find_region wibo.Vm.Regions.floor_region wibo.Vm.Regions.region_end align_down
queried_region = refl

virtual_query-ReportsRun_example : ReportsRun 0x111234 1 four_pages 4 two_regions
unfolding align_down
virtual_query-ReportsRun_example =
    virtual_query-ReportsRun 0x111234 two_regions four_pages 4 (omega arith) queried_region refl

abbrev protected : VmStatus × Option ℕ × Vm
protected = virtual_protect kind_host 0x110FFF 2 2 two_regions

protected_pages : protected ≡ (success, some 4, protected.2)
unfolding virtual_protect align_up align_down find_region wibo.Vm.Regions.floor_region
    wibo.Vm.Regions.region_end wibo.Vm.Regions.range_within_region wibo.Vm.Align.add_overflows
    wibo.Vm.Release.protect_pages wibo.Vm.Release.all_committed_from
protected_pages = refl

virtual_protect-Protected_example : Protected 0x110000 0x112000 2 4 two_regions protected.2
unfolding align_down align_up
virtual_protect-Protected_example =
    virtual_protect-Protected kind_host 0x110FFF 2 2 4 two_regions protected.2
      two_regions-IsOrderedFrom protected_pages

two_regions-mapped :
    (a : ℕ) → find_mapping a two_regions.mappings ≡ none → find_base a two_regions.regions ≡ none
unfolding find_mapping find_base
two_regions-mapped a h = ground arith

abbrev round_trip : Reply
round_trip = virtual_alloc kind_host (some 0x312345) 0x2000 0x3000 4 0x20000 two_regions

round_trip_ok : (round_trip.status ≡ success) × (round_trip.base ≡ some 0x310000)
unfolding virtual_alloc wibo.Vm.Allocate.place_at wibo.Vm.Align.add_overflows align_down align_up
    wibo.Vm.Mapping.overlaps_existing wibo.Vm.Mapping.overlaps_from wibo.Vm.Mapping.from_floor
    wibo.Vm.Allocate.reserve_at
round_trip_ok = (refl, refl)

virtual_alloc-virtual_free_example :
    virtual_free kind_host 0x310000 0 mem_release round_trip.vm ≡ (success, two_regions)
virtual_alloc-virtual_free_example =
    virtual_alloc-virtual_free kind_host kind_host (some 0x312345) 0x2000 0x3000 4 0x20000
      two_regions 0x310000 two_mappings-IsTiled two_regions-mapped (omega arith) (omega arith) refl
      round_trip_ok.0 round_trip_ok.1 (λ z. absurd (omega arith)) refl

abbrev commit_call : Reply
commit_call = virtual_alloc kind_host (some 0x112800) 0x1000 0x1000 2 0x20000 two_regions

commit_call_ok : commit_call.status ≡ success
unfolding virtual_alloc wibo.Vm.Allocate.commit_pages wibo.Vm.Align.add_overflows align_up
    align_down find_region wibo.Vm.Regions.floor_region wibo.Vm.Regions.region_end
    wibo.Vm.Regions.range_within_region wibo.Vm.Allocate.commit_in wibo.Vm.Allocate.collect_runs
    wibo.Vm.Allocate.commit_reply wibo.Vm.Allocate.commit_runs
commit_call_ok = refl

virtual_alloc-Committed_example :
    Committed
      (align_down 0x112800 page_size)
      (align_up 0x113800 page_size)
      2
      (some 0x112800)
      two_regions
      commit_call
virtual_alloc-Committed_example =
    virtual_alloc-Committed kind_host (some 0x112800) 0x1000 0x1000 2 0x20000 two_regions
      two_regions-IsOrderedFrom refl refl (λ z. absurd (omega arith)) commit_call_ok

decommitted_region : find_region 0x111800 two_regions.regions ≡ some four_pages
unfolding find_region wibo.Vm.Regions.floor_region wibo.Vm.Regions.region_end
decommitted_region = refl

abbrev decommit_call : VmStatus × Vm
decommit_call = virtual_free kind_host 0x111800 0x1000 0x4000 two_regions

decommit_call_ok : decommit_call ≡ (success, decommit_call.1)
unfolding virtual_free wibo.Vm.Release.decommit_pages find_region wibo.Vm.Regions.floor_region
    wibo.Vm.Regions.region_end wibo.Vm.Align.add_overflows wibo.Vm.Release.decommit_range align_up
    align_down wibo.Vm.Regions.range_within_region
decommit_call_ok = refl

virtual_free-Decommitted_example :
    Decommitted 0x111800 0x111000 0x113000 two_regions decommit_call.1
unfolding align_down align_up
virtual_free-Decommitted_example =
    virtual_free-Decommitted kind_host 0x111800 0x1000 four_pages two_regions decommit_call.1
      two_regions-IsOrderedFrom decommitted_region (refl, omega arith) (omega arith)
      decommit_call_ok
