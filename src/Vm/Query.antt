-- ===== src/Vm/Query.antt =====
-- `virtualQuery` of src/heap.cpp.
use wibo.Base.{
  ℕ, zero, suc, ◌+◌, ◌-◌, ◌*◌, ◌/◌, List, [], ◌∷◌, Bool, false, not, Option, none, some, leb, ◌==◌,
  if◌then◌else◌, get_elem?, u32,
}
use wibo.Vm.Align.{align_down, page_size, two_gb}
use wibo.Vm.Types.{
  Region, Info, VmStatus, success, invalid_parameter, invalid_address, mem_commit, mem_reserve,
  mem_free, page_noaccess,
}
use wibo.Vm.Regions.{Regions, Vm, find_region}

-- `lower_bound(address)`
unfoldable pub next_base : ℕ → Regions → Option ℕ
next_base address [] = none
next_base address (r ∷ rs) = if leb address r.base then some r.base else next_base address rs

-- A page belongs to the block of a page with `protect`: both not committed, or protected alike.
unfoldable pub same_block : ℕ → ℕ → Bool
same_block protect p = if protect == 0 then p == 0 else if p == 0 then false else p == protect

-- The first loop: the first page of the block that page `i` belongs to.
unfoldable pub block_first : List ℕ → ℕ → ℕ → ℕ
block_first pages protect zero = zero
block_first pages protect (suc i) =
    let rest = block_first pages protect i in
    elim (get_elem? pages i) [
      | none ↦ suc i
      | some p ↦ if same_block protect p then rest else suc i
    ]

-- The second loop: the page after the block, from page `i` on with `left` pages up to the limit.
unfoldable pub block_last : List ℕ → ℕ → ℕ → ℕ → ℕ
block_last pages protect i zero = i
block_last pages protect i (suc left) =
    let rest = block_last pages protect (suc i) left in
    elim (get_elem? pages i) [ none ↦ i | some p ↦ if same_block protect p then rest else i ]

-- The answer for a page without a region.
unfoldable pub query_free : ℕ → Regions → Info
query_free page_base rs =
    let end : ℕ = elim (next_base page_base rs) [ none ↦ two_gb | some b ↦ b ] in
    let end' = if leb end page_base then page_base + page_size else end in
    record {
      base_address = u32 page_base;
      allocation_base = 0;
      allocation_protect = 0;
      region_size = u32 (end' - page_base);
      state = mem_free;
      protect = page_noaccess;
      type = 0;
    }

-- The answer for page `i` of a region, of the protection `protect`.
unfoldable pub query_block : Region → ℕ → ℕ → Info
query_block r i protect =
    let first = block_first r.page_protect protect i in
    let last = block_last r.page_protect protect (suc i) (r.size / page_size - suc i) in
    record {
      base_address = u32 (r.base + first * page_size);
      allocation_base = u32 r.base;
      allocation_protect =
          if not (r.allocation_protect == 0) then r.allocation_protect else page_noaccess;
      region_size = u32 ((last - first) * page_size);
      state = if protect == 0 then mem_reserve else mem_commit;
      protect = if protect == 0 then page_noaccess else protect;
      type = r.type;
    }

-- `virtualQuery` with a place for the answer.
unfoldable pub virtual_query : ℕ → Vm → VmStatus × Option Info
virtual_query address vm =
    let page_base = align_down address page_size in
    if leb two_gb address
    then (invalid_parameter, none)
    else elim (find_region page_base vm.regions) [
      | none ↦ (success, some (query_free page_base vm.regions))
      | some r ↦
          let i = (page_base - r.base) / page_size in
          elim (get_elem? r.page_protect i) [
            | none ↦ (invalid_address, none)
            | some protect ↦ (success, some (query_block r i protect))
          ]
    ]
