-- ===== src/Vm/Gap.antt =====
-- `findFreeMappingLocked` of src/heap.cpp: the search for a free range between the mappings.
use wibo.Base.{
  ℕ, ◌-◌, [], ◌∷◌, Bool, not, ◌||◌, Option, none, some, ltb, leb, ◌==◌, if◌then◌else◌, min,
}
use wibo.Vm.Align.{add_ptr, align_down, align_up, page_size, virtual_allocation_granularity}
use wibo.Vm.Types.{Info}
use wibo.Vm.Mapping.{Mappings}

-- The lambda `tryGap`.
unfoldable pub try_gap : ℕ → Bool → ℕ → ℕ → Option ℕ
try_gap aligned_size prefer_top gap_start gap_end =
    let lower = align_up gap_start virtual_allocation_granularity in
    let chosen = align_down (gap_end - aligned_size) virtual_allocation_granularity in
    if leb gap_end gap_start
    then none
    else if leb gap_end lower
    then none
    else if not prefer_top
    then (if leb (add_ptr lower aligned_size) gap_end then some lower else none)
    else if ltb gap_end aligned_size
    then none
    else if ltb chosen lower
    then none
    else if ltb gap_end (add_ptr chosen aligned_size)
    then none
    else some chosen

-- What the search has so far: an answer to return at once, or the best candidate from the top.
pub data Search : Type 0 where
  found : ℕ → Search
  stop : ℕ → Option ℕ → Search
  go : ℕ → Option ℕ → Search

-- `bestCandidate` after one more candidate.
unfoldable pub better : ℕ → Option ℕ → Option ℕ
better candidate none = some candidate
better candidate (some best) = if ltb best candidate then some candidate else some best

-- The lambda `considerGap`; the cursor is passed on to `k` unless it returns true.
unfoldable pub consider_gap : ℕ → Bool → ℕ → ℕ → Option ℕ → (Option ℕ → Search) → Search
consider_gap aligned_size prefer_top gap_start gap_end best k =
    elim (try_gap aligned_size prefer_top gap_start gap_end) [
      | none ↦ k best
      | some candidate ↦ if not prefer_top then found candidate else k (better candidate best)
    ]

-- The end of the loop's body.
unfoldable pub advance : ℕ → ℕ → ℕ → Option ℕ → Search
advance search_max cursor map_end best =
    let cursor' = if ltb cursor map_end then align_up map_end page_size else cursor in
    if leb search_max cursor' then stop cursor' best else go cursor' best

-- The loop's body.
unfoldable pub visit : ℕ → ℕ → ℕ → Bool → ℕ → Option ℕ → ℕ × Info → Search
visit aligned_size search_min search_max prefer_top cursor best (map_start, info) =
    let map_end = add_ptr map_start info.region_size in
    if leb map_end search_min
    then go cursor best
    else if leb search_max map_start
    then consider_gap aligned_size prefer_top cursor search_max best (λ b. stop cursor b)
    else if ltb cursor map_start
    then consider_gap aligned_size prefer_top cursor (min map_start search_max) best
        (λ b. advance search_max cursor map_end b)
    else advance search_max cursor map_end best

-- What follows the loop.
unfoldable pub finish_search : ℕ → ℕ → Bool → ℕ → Option ℕ → Option ℕ
finish_search aligned_size search_max prefer_top cursor best =
    if ltb cursor search_max
    then elim (consider_gap aligned_size prefer_top cursor search_max best (λ b. stop cursor b)) [
      | found a ↦ some a
      | stop _ b ↦ b
      | go _ b ↦ b
    ]
    else best

unfoldable pub scan_mappings : ℕ → ℕ → ℕ → Bool → ℕ → Option ℕ → Mappings → Option ℕ
scan_mappings aligned_size search_min search_max prefer_top cursor best [] =
    finish_search aligned_size search_max prefer_top cursor best
scan_mappings aligned_size search_min search_max prefer_top cursor best (m ∷ ms) =
    elim (visit aligned_size search_min search_max prefer_top cursor best m) [
      | found a ↦ some a
      | stop c b ↦ finish_search aligned_size search_max prefer_top c b
      | go c b ↦ scan_mappings aligned_size search_min search_max prefer_top c b ms
    ]

-- `findFreeMappingLocked`
unfoldable pub find_free_mapping : ℕ → ℕ → ℕ → Bool → Mappings → Option ℕ
find_free_mapping size search_min search_max prefer_top ms =
    let aligned_size = align_up size page_size in
    if size == 0
    then none
    else if leb search_max search_min || ltb (search_max - search_min) aligned_size
    then none
    else scan_mappings aligned_size search_min search_max prefer_top
        (align_up search_min virtual_allocation_granularity) none ms
