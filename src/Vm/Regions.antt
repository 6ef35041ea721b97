-- ===== src/Vm/Regions.antt =====
-- `g_virtualAllocations` of src/heap.cpp, a list in the order of the bases, and the marking of pages.
use wibo.Base.{
  ℕ, zero, suc, ◌-◌, ◌/◌, List, [], ◌∷◌, Bool, true, false, not, ◌&&◌, Option, none, some, ltb, leb,
  ◌==◌, if◌then◌else◌, set,
}
use wibo.Vm.Align.{add_ptr, add_overflows, page_size}
use wibo.Vm.Types.{Region, page_noaccess, mem_commit, mem_reserve}
use wibo.Vm.Mapping.{Mappings, record_mapping}

abbrev pub Regions : Type 0
Regions = List Region

-- `g_virtualAllocations` and `g_mappings`.
pub record Vm : Type 0 where
  pub regions : Regions
  pub mappings : Mappings

-- `regionEnd`
unfoldable pub region_end : Region → ℕ
region_end r = add_ptr r.base r.size

-- `--upper_bound(address)`, with what was met so far.
unfoldable pub floor_region : ℕ → Option Region → Regions → Option Region
floor_region address met [] = met
floor_region address met (r ∷ rs) =
    if ltb address r.base then met else floor_region address (some r) rs

-- `findRegionIterator`, `lookupRegion`
unfoldable pub find_region : ℕ → Regions → Option Region
find_region address rs = elim (floor_region address none rs) [
  | none ↦ none
  | some r ↦ if leb (region_end r) address then none else some r
]

-- `g_virtualAllocations.find(base)`
unfoldable pub find_base : ℕ → Regions → Option Region
find_base base [] = none
find_base base (r ∷ rs) = if r.base == base then some r else find_base base rs

-- `g_virtualAllocations[r.base] = r`
unfoldable pub put_region : Region → Regions → Regions
put_region new [] = new ∷ []
put_region new (r ∷ rs) =
    let rest = put_region new rs in
    if ltb new.base r.base
    then new ∷ (r ∷ rs)
    else if new.base == r.base
    then new ∷ rs
    else r ∷ rest

-- `g_virtualAllocations.erase(it)`
unfoldable pub erase_region : ℕ → Regions → Regions
erase_region base [] = []
erase_region base (r ∷ rs) = if r.base == base then rs else r ∷ erase_region base rs

-- `rangeWithinRegion`
unfoldable pub range_within_region : Region → ℕ → ℕ → Bool
range_within_region r start length =
    if length == 0
    then leb r.base start && leb start (region_end r)
    else if ltb start r.base
    then false
    else if add_overflows start length
    then false
    else leb (add_ptr start length) (region_end r)

-- The loop over `pageProtect[firstPage + i]`.
unfoldable pub set_pages : ℕ → ℕ → ℕ → List ℕ → List ℕ
set_pages first zero protect ps = ps
set_pages first (suc count) protect ps = set_pages (suc first) count protect (set ps first protect)

-- `markCommitted`, and with a protection of 0 `markDecommitted`.
unfoldable pub mark_pages : Region → ℕ → ℕ → ℕ → Region
mark_pages r start length protect = record r {
  page_protect =
      set_pages ((start - r.base) / page_size) (length / page_size) protect r.page_protect;
}

-- What the loop of `refreshGuestMappingLocked` finds in the pages.
pub record Summary : Type 0 where
  pub all_committed : Bool
  pub any_committed : Bool
  pub first_protect : ℕ
  pub uniform_protect : Bool

unfoldable pub summarize : List ℕ → Summary → Summary
summarize [] s = s
summarize (p ∷ ps) s = summarize ps (
    if p == 0
    then record s { all_committed = false }
    else if s.first_protect == 0
    then record s { any_committed = true; first_protect = p }
    else if s.first_protect == p
    then record s { any_committed = true }
    else record s { any_committed = true; uniform_protect = false })

abbrev pub no_pages : Summary
no_pages = record {
  all_committed = true;
  any_committed = false;
  first_protect = 0;
  uniform_protect = true;
}

-- `refreshGuestMappingLocked`
unfoldable pub refresh_mapping : Region → Mappings → Mappings
refresh_mapping r ms =
    let s = summarize r.page_protect no_pages in
    let state = if s.all_committed && s.any_committed then mem_commit else mem_reserve in
    let protect =
      if state == mem_commit
      then (if s.uniform_protect && not (s.first_protect == 0)
          then s.first_protect
          else page_noaccess)
      else page_noaccess in
    let allocation_protect =
      if not (r.allocation_protect == 0) then r.allocation_protect else page_noaccess in
    record_mapping r.base r.size allocation_protect state protect r.type ms
