-- ===== src/Handles/Stale.antt =====
-- A closed handle stays stale: the promise behind the quarantine of src/handles.cpp.
use wibo.Base.{ℕ, ◌+◌, ◌-◌, ◌≤◌, ◌<◌, ◌^◌, ◌≡◌, sym, ap, ◌∙◌, subst, true, none, some, arith}
use wibo.Handles.Index.{index_of, compat_max_index, quarantine_len}
use wibo.Handles.Table.{Entry, Table}
use wibo.Handles.Counts.{IsSound}
use wibo.Handles.World.{World, release, lookup, set_information}
use wibo.Handles.Quarantine.{
  Waits, Waits-lookup, Waits-release, Waits-duplicate, quarantine-alloc, quarantine-set_information,
  table-get, table-closed, park-Waits,
}
use wibo.Handles.History.{
  State, HasRoom, Step, make_pin, drop_pin, allocs, gets_nothing, gets, releases, sets, duplicates,
  step_closings, Reach, here, next, closings, start, Step-IsSound, Reach-keeps, Reach-IsSound,
}

Waits-kept :
    (idx n : ℕ) {t t' : Table} → t'.quarantine ≡ t.quarantine → Waits idx n t → Waits idx (n + 0) t'
Waits-kept idx n e s = record {
  older = s.older;
  newer = s.newer;
  place = e ∙ s.place;
  age = omega (arith, s.age);
}

-- A waiting index ages only by the operations that close handles.
Step-Waits :
    {s t : State} (idx n : ℕ) (st : Step s t)
    → n + step_closings st ≤ quarantine_len - 1
    → Waits idx n s.world.table
    → Waits idx (n + step_closings st) t.world.table
Step-Waits idx n (make_pin p flags kind dead e f) l w =
    Waits-kept idx n (ap (λ (x : World). x.table.quarantine) e) w
Step-Waits idx n (drop_pin p os e d f) l w =
    Waits-kept idx n (ap (λ (x : World). x.table.quarantine) f) w
Step-Waits {s} idx n (allocs p access flags h o e live d) l w =
    Waits-kept idx n (quarantine-alloc p access flags s.world d) w
Step-Waits {s} idx n (gets_nothing h e d) l w =
    Waits-kept idx n (ap (λ (x : Table). x.quarantine) (table-get h s.world d)) w
Step-Waits {s} idx n (gets h p meta e d) l w =
    Waits-kept idx n (ap (λ (x : Table). x.quarantine) (table-get h s.world d)) w
Step-Waits {s} idx n (releases h b small e d) l w = Waits-release idx n h s.world d (omega arith) w
Step-Waits {s} {t} idx n (sets h mask value b small e d) l w =
    let left : (set_information h mask value s.world).1 ≡ t.world = ap (λ x. x.1) d in
    Waits-kept idx n
      (ap (λ (x : World). x.table.quarantine) (sym left)
        ∙ quarantine-set_information h mask value s.world)
      w
Step-Waits {s} idx n (duplicates src desired options inherit out small e d) l w =
    Waits-duplicate idx n src desired inherit options s.world d (omega arith) w

Reach-Waits :
    {s t : State} (idx : ℕ) (r : Reach s t)
    → closings r ≤ quarantine_len - 1
    → Waits idx 0 s.world.table
    → Waits idx (closings r) t.world.table
Reach-Waits idx here l w = w
Reach-Waits idx (next r room st) l w =
    Step-Waits idx (closings r) st l (Reach-Waits idx r (omega arith) w)

-- A handle below 0x8000 that was closed finds nothing, whatever the process does next, until more than
-- 63 operations that may close handles have come after: no operation gives its value out again.
pub stale_handle :
    {s t u : State} (h p : ℕ) (e : Entry)
    → Reach start s
    → HasRoom s
    → h < 2 ^ 32
    → index_of h ≤ compat_max_index
    → lookup s.world.table h ≡ some (p, e)
    → t.pins ≡ s.pins
    → release h s.world ≡ some (true, t.world)
    → (r : Reach t u) → closings r ≤ quarantine_len - 1
    → lookup u.world.table h ≡ none
stale_handle {s} {t} {u} h p e past room small low f same closed r few =
    let sound : IsSound t.pins t.world =
      Step-IsSound room (releases h true small same closed) (Reach-IsSound past) in
    let parked : Waits (index_of h) 0 t.world.table =
      subst (Waits (index_of h) 0)
        (sym (table-closed h p e s.world (omega (arith, room.slots)) f closed))
        (park-Waits (index_of h) _ low) in
    Waits-lookup u.world.table h (closings r) (Reach-keeps sound r).slots
      (Reach-Waits (index_of h) r few parked)
