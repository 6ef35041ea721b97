-- ===== src/Handles/Alloc.antt =====
-- `Handles::alloc`.
use wibo.Base.{
  ℕ, ◌+◌, ◌-◌, ◌≤◌, ◌<◌, ◌^◌, ◌≡◌, ◌≢◌, refl, sym, ap, ◌∙◌, none, some, arith, u32, length,
  get_elem?, get_elem?-set, length-set, get_elem?_in, set,
}
use wibo.Handles.Index.{index_of, make_handle, make_handle_lem, make_handle-index_of}
use wibo.Handles.Objects.{Kind, Object, update}
use wibo.Handles.Table.{Entry, Table, pick_index, fill_entry}
use wibo.Handles.Slots.{Picked, pick_index-Picked, fill-Inv}
use wibo.Handles.Counts.{
  holders, holders-set, holders-pick_index, holders-le-length, bump, Counted, IsSound,
}
use wibo.Handles.World.{World, alloc, lookup}
use wibo.Handles.Lookup.{lookup-vacant, lookup-same, lookup-full}

-- What a new handle `h` of `p` means: it was no handle before, it finds `p` with what the caller
-- asked for, and every other handle finds what it found.
pub record Allocated (w : World) (p : ℕ) (o : Object) (access flags h : ℕ) (w' : World)
    : Type 0 where
  pub entry : Entry
  pub small : h < 2 ^ 31
  pub fresh : lookup w.table h ≡ none
  pub found : lookup w'.table h ≡ some (p, entry)
  pub access_kept : entry.meta.granted_access ≡ access
  pub flags_kept : entry.meta.flags ≡ flags
  pub kind_kept : entry.meta.type_cache ≡ o.kind
  pub others : (k : ℕ) → k < 2 ^ 32 → k ≢ h → lookup w'.table k ≡ lookup w.table k
  pub names_kept : w'.names ≡ w.names
  pub grows : length w'.table.slots ≤ length w.table.slots + 1

-- The state that `alloc` leaves, given the slot and the table that were picked.
abbrev filled : World → ℕ → Object → ℕ → ℕ → ℕ → Table → Entry → World
filled w p o access flags idx t e = record w {
  table = record t { slots = set t.slots idx (fill_entry p o.kind access flags e) };
  objects = update w.objects p (some (record o { handle_count = u32 (o.handle_count + 1) }));
}

filled_obj :
    (p : ℕ) (kind : Kind) (access flags : ℕ) (e : Entry)
    → (fill_entry p kind access flags e).obj ≡ some p
unfolding fill_entry
filled_obj p kind access flags e = refl

filled-Allocated :
    (w : World) (p : ℕ) (o : Object) (access flags idx : ℕ) (t : Table) (e : Entry)
    → Picked w.table idx t
    → idx < 2 ^ 29 - 1
    → get_elem? t.slots idx ≡ some e
    → Allocated w p o access flags (make_handle idx) (filled w p o access flags idx t e)
unfolding fill_entry
filled-Allocated w p o access flags idx t e k small at =
    let h = make_handle idx in
    let made = make_handle_lem idx small in
    let e' : Entry = fill_entry p o.kind access flags e in
    let stored = get_elem?-set t.slots idx in
    record {
      entry = e';
      small = made.3;
      fresh = lookup-vacant w.table h (ground (arith, made, k.was_vacant));
      found =
          lookup-full _ h p e' (made.2) (made.1) (ground (arith, made, stored idx e' k.in_range))
            refl;
      access_kept = refl;
      flags_kept = refl;
      kind_kept = refl;
      others = λ j b ne.
          let apart : index_of j ≢ idx =
            λ q. ne (sym (make_handle-index_of j b (rw q small)) ∙ ap make_handle q) in
          lookup-same w.table _ j
            (ground (arith, stored (index_of j) e' k.in_range, k.same (index_of j) apart));
      names_kept = refl;
      grows = omega (arith, k.grows, length-set t.slots idx e');
    }

filled-Counted :
    (pins : ℕ → ℕ) (w : World) (p : ℕ) (o : Object) (access flags idx : ℕ) (t : Table) (e : Entry)
    → Picked w.table idx t
    → ((q : ℕ) → holders q t.slots ≡ holders q w.table.slots)
    → length w.table.slots < 2 ^ 29 - 1
    → w.objects p ≡ some o
    → get_elem? t.slots idx ≡ some e
    → Counted (bump p pins) w
    → Counted pins (filled w p o access flags idx t e)
unfolding fill_entry
filled-Counted pins w p o access flags idx t e k same small live at c q = ground (
  arith,
  c q,
  same q,
  k.vacant,
  holders-set q t.slots idx e (fill_entry p o.kind access flags e) at,
  holders-le-length q w.table.slots,
)

-- With room in the table, and a pin of a live object to give away, `alloc` does not fault. It
-- returns a new handle of the object and leaves every other handle as it was; the pin has become
-- the slot's, and the slots and the counts stay sound.
pub alloc-Allocated :
    (pins : ℕ → ℕ) (w : World) (p : ℕ) (o : Object) (access flags : ℕ)
    → IsSound (bump p pins) w
    → length w.table.slots < 2 ^ 29 - 1
    → w.objects p ≡ some o
    → (h : ℕ) × (w' : World) × (alloc p access flags w ≡ some (h, w'))
      × Allocated w p o access flags h w'
      × IsSound pins w'
unfolding alloc
alloc-Allocated pins w p o access flags v room live =
    let idx : ℕ = (pick_index w.table).0 in
    let t : Table = (pick_index w.table).1 in
    let k : Picked w.table idx t = pick_index-Picked w.table (omega arith) v.slots in
    let small : idx < 2 ^ 29 - 1 = omega (arith, k.in_range, k.grows) in
    let (e, at) = get_elem?_in t.slots idx k.in_range in
    (
      make_handle idx,
      filled w p o access flags idx t e,
      ground (arith, at, live),
      filled-Allocated w p o access flags idx t e k small at,
      record {
        slots =
            fill-Inv w.table t idx (fill_entry p o.kind access flags e) p
              (filled_obj p o.kind access flags e) k;
        counts =
            filled-Counted pins w p o access flags idx t e k (λ q. holders-pick_index q w.table)
              room live at v.counts;
      },
    )
