-- ===== src/Handles/Quarantine.antt =====
-- How long the quarantine of src/handles.cpp keeps an index from its reuse.
use wibo.Base.{
  ℕ, ◌+◌, ◌-◌, ◌≤◌, ◌<◌, ◌^◌, ◌≡◌, ◌⊎◌, inl, inr, refl, sym, ap, ◌∙◌, subst, Bool, true, false,
  List, [], ◌∷◌, ◌++◌, Option, none, some, arith, ◌&&◌, ◌==◌, length, length-append, count,
  count-append, set, Option-cases, Bool-cases, leb,
}
use mathlib.Core.List.{append_assoc}
use wibo.Handles.Index.{index_of, is_pseudo, compat_max_index, quarantine_len}
use wibo.Handles.Table.{
  Meta, Entry, Table, pick_index, quarantine_push, park, clear_entry, entry_at,
}
use wibo.Handles.Slots.{Inv}
use wibo.Handles.World.{
  effective_access, inherit_flags, duplicate_close_source, has_flag, handle_flag_protect_from_close,
  World, alloc, release, close_entry, on_handle_zero, lookup, set_information, get, drop_pin,
  copy_entry, duplicate_entry, duplicate_to,
}
use wibo.Handles.Lookup.{lookup-vacant, lookup-slot, entry_at-eq-lookup}

-- The index stands in the quarantine with at most `n` indices parked after it.
pub record Waits (idx n : ℕ) (t : Table) : Type 0 where
  pub older : List ℕ
  pub newer : List ℕ
  pub place : t.quarantine ≡ older ++ (idx ∷ newer)
  pub age : length newer ≤ n

count_middle : (i : ℕ) (xs ys : List ℕ) → 0 < count i (xs ++ (i ∷ ys))
count_middle i xs ys = ground (arith, count-append i xs (i ∷ ys))

-- A waiting index has no handle that finds anything.
pub Waits-lookup : (t : Table) (h n : ℕ) → Inv t → Waits (index_of h) n t → lookup t h ≡ none
Waits-lookup t h n v s =
    lookup-vacant t h
      (ground (arith, v.partition (index_of h), s.place, count_middle (index_of h) s.older s.newer))

Waits-push :
    (idx j n : ℕ) (t : Table) (older newer : List ℕ)
    → t.quarantine ≡ older ++ (idx ∷ newer)
    → length newer ≤ n
    → n < quarantine_len - 1
    → Waits idx (n + 1) (quarantine_push j t)
unfolding quarantine_push
Waits-push idx j n t [] newer e l b = record {
  older = [];
  newer = newer ++ (j ∷ []);
  place = ground (arith, length-append newer (j ∷ []));
  age = omega (arith, length-append newer (j ∷ []));
}
Waits-push idx j n t (x ∷ older) newer e l b =
    elim (Bool-cases (leb (length (t.quarantine ++ (j ∷ []))) quarantine_len)) [
      | inl fits ↦ record {
        older = x ∷ older;
        newer = newer ++ (j ∷ []);
        place = ground (arith, append_assoc older (idx ∷ newer) (j ∷ []));
        age = omega (arith, length-append newer (j ∷ []));
      }
      | inr full ↦ record {
        older = older;
        newer = newer ++ (j ∷ []);
        place = ground (arith, append_assoc older (idx ∷ newer) (j ∷ []));
        age = omega (arith, length-append newer (j ∷ []));
      }
    ]

-- Parking one more index lets a waiting one age by one at most, until it has waited for
-- `quarantine_len - 1` others.
pub Waits-park :
    (idx j n : ℕ) (t : Table)
    → n < quarantine_len - 1
    → Waits idx n t
    → Waits idx (n + 1) (park j t)
unfolding park
Waits-park idx j n t b s = elim (Bool-cases (leb j compat_max_index)) [
  | inl low ↦
      let shape : park j t ≡ quarantine_push j t = ground arith in
      subst (Waits idx (n + 1)) (sym shape) (Waits-push idx j n t s.older s.newer s.place s.age b)
  | inr high ↦
      let shape : park j t ≡ record t { free_above = j ∷ t.free_above } = ground arith in
      subst (Waits idx (n + 1)) (sym shape)
        (record { older = s.older; newer = s.newer; place = s.place; age = omega (arith, s.age) })
]

push-Waits :
    (idx : ℕ) (t : Table) (q : List ℕ) → t.quarantine ≡ q → Waits idx 0 (quarantine_push idx t)
unfolding quarantine_push
push-Waits idx t [] e = record { older = []; newer = []; place = ground arith; age = omega arith }
push-Waits idx t (x ∷ q) e =
    elim (Bool-cases (leb (length (t.quarantine ++ (idx ∷ []))) quarantine_len)) [
      | inl fits ↦ record { older = x ∷ q; newer = []; place = ground arith; age = omega arith }
      | inr full ↦ record { older = q; newer = []; place = ground arith; age = omega arith }
    ]

-- A new index waits at the end.
pub park-Waits : (idx : ℕ) (t : Table) → idx ≤ compat_max_index → Waits idx 0 (park idx t)
unfolding park
park-Waits idx t h =
    let shape : park idx t ≡ quarantine_push idx t = ground arith in
    subst (Waits idx 0) (sym shape) (push-Waits idx t t.quarantine refl)

Waits-same :
    (idx n : ℕ) (t t' : Table) → t'.quarantine ≡ t.quarantine → Waits idx n t → Waits idx n t'
Waits-same idx n t t' e s = record {
  older = s.older;
  newer = s.newer;
  place = e ∙ s.place;
  age = s.age;
}

quarantine-pick_index : (t : Table) → (pick_index t).1.quarantine ≡ t.quarantine
unfolding pick_index
quarantine-pick_index t = ground arith

-- `alloc` takes nothing from the quarantine.
pub quarantine-alloc :
    (p access flags : ℕ) (w : World) {h : ℕ} {w' : World}
    → alloc p access flags w ≡ some (h, w')
    → w'.table.quarantine ≡ w.table.quarantine
unfolding alloc
quarantine-alloc p access flags w e = ground (arith, quarantine-pick_index w.table)

pub quarantine-set_information :
    (h mask value : ℕ) (w : World)
    → (set_information h mask value w).1.table.quarantine ≡ w.table.quarantine
unfolding set_information
quarantine-set_information h mask value w = ground arith

pub table-get :
    (h : ℕ) (w : World) {r : Option (ℕ × Meta)} {w' : World}
    → get h w ≡ some (r, w')
    → w'.table ≡ w.table
unfolding get
table-get h w e = ground arith

table-close_entry :
    (idx p : ℕ) (e : Entry) (w : World) {b : Bool} {w' : World}
    → close_entry idx p e w ≡ some (b, w')
    → w'.table ≡ park idx (record w.table { slots = set w.table.slots idx (clear_entry e) })
unfolding close_entry on_handle_zero
table-close_entry idx p e w q = ground arith

-- `release` leaves the quarantine, or parks one index.
pub table-release :
    (h : ℕ) (w : World) {b : Bool} {w' : World}
    → release h w ≡ some (b, w')
    → (w'.table.quarantine ≡ w.table.quarantine)
      ⊎ ((t : Table) × (t.quarantine ≡ w.table.quarantine) × (w'.table ≡ park (index_of h) t))
unfolding release
table-release h w {b} {w'} q = elim (Bool-cases (is_pseudo h)) [
  | inl y ↦ inl (ground arith)
  | inr n ↦ elim (Option-cases (entry_at w.table h)) [
    | inl f ↦ inl (ground arith)
    | inr ((p, e), f) ↦ elim (Bool-cases (has_flag e.meta.flags handle_flag_protect_from_close)) [
      | inl held ↦ inl (ground arith)
      | inr free ↦
          let closes : close_entry (index_of h) p e w ≡ some (b, w') = ground arith in
          inr (_, refl, table-close_entry (index_of h) p e w closes)
    ]
  ]
]

-- Closing a handle that finds an object parks its index.
pub table-closed :
    (h p : ℕ) (e : Entry) (w : World) {w' : World}
    → length w.table.slots < 2 ^ 29
    → lookup w.table h ≡ some (p, e)
    → release h w ≡ some (true, w')
    → w'.table
      ≡ park
          (index_of h)
          (record w.table { slots = set w.table.slots (index_of h) (clear_entry e) })
unfolding release
table-closed h p e w {w'} room f q =
    let n : is_pseudo h ≡ false = (lookup-slot w.table h p e f).2 in
    let at : entry_at w.table h ≡ some (p, e) = entry_at-eq-lookup w.table h room n ∙ f in
    let closes : close_entry (index_of h) p e w ≡ some (true, w') = ground arith in
    table-close_entry (index_of h) p e w closes

-- So a waiting index ages by one at most.
pub Waits-release :
    (idx n h : ℕ) (w : World) {b : Bool} {w' : World}
    → release h w ≡ some (b, w')
    → n < quarantine_len - 1
    → Waits idx n w.table
    → Waits idx (n + 1) w'.table
Waits-release idx n h w {b} {w'} q l s = elim (table-release h w q) [
  | inl e ↦ record {
    older = s.older;
    newer = s.newer;
    place = e ∙ s.place;
    age = omega (arith, s.age);
  }
  | inr (t, e, park_t) ↦
      subst (Waits idx (n + 1)) (sym park_t)
        (Waits-park idx (index_of h) n t l (Waits-same idx n w.table t e s))
]

table-drop_pin :
    (p : ℕ) (out : Option ℕ) (w : World) {r : Option ℕ} {w' : World}
    → drop_pin p out w ≡ some (r, w')
    → w'.table ≡ w.table
unfolding drop_pin
table-drop_pin p out w q = ground arith

Waits-later :
    (idx n : ℕ) (t t' : Table) → t'.quarantine ≡ t.quarantine → Waits idx n t → Waits idx (n + 1) t'
Waits-later idx n t t' e s = record {
  older = s.older;
  newer = s.newer;
  place = e ∙ s.place;
  age = omega (arith, s.age);
}

Waits-copy_entry :
    (idx n src p : ℕ) (closes : Bool) (access flags : ℕ) (w : World) {r : Option ℕ} {w' : World}
    → copy_entry src p closes access flags w ≡ some (r, w')
    → n < quarantine_len - 1
    → Waits idx n w.table
    → Waits idx (n + 1) w'.table
unfolding copy_entry
Waits-copy_entry idx n src p closes access flags w {r} {w'} q l s =
    elim (Option-cases (alloc p access flags w)) [
      | inl f ↦ absurd (ground arith)
      | inr ((out, w1), f) ↦
          let same : w1.table.quarantine ≡ w.table.quarantine =
            quarantine-alloc p access flags w f in
          elim (Bool-cases closes) [
            | inr keep ↦
                let e : w1 ≡ w' = ground arith in
                subst (λ (x : World). Waits idx (n + 1) x.table) e
                  (Waits-later idx n w.table w1.table same s)
            | inl close ↦ elim (Option-cases (release src w1)) [
              | inl g ↦ absurd (ground arith)
              | inr ((b, w2), g) ↦
                  let e : w2 ≡ w' = ground arith in
                  subst (λ (x : World). Waits idx (n + 1) x.table) e
                    (Waits-release idx n src w1 g l (Waits-same idx n w.table w1.table same s))
            ]
          ]
    ]

Waits-duplicate_entry :
    (idx n src p : ℕ) (meta : Meta) (desired : ℕ) (inherit : Bool) (options : ℕ) (w : World)
    {r : Option ℕ} {w' : World}
    → duplicate_entry src p meta desired inherit options w ≡ some (r, w')
    → n < quarantine_len - 1
    → Waits idx n w.table
    → Waits idx (n + 1) w'.table
unfolding duplicate_entry
Waits-duplicate_entry idx n src p meta desired inherit options w {r} {w'} q l s =
    let closes : Bool = has_flag options duplicate_close_source in
    let access : ℕ = effective_access meta.granted_access desired options in
    let flags : ℕ = inherit_flags inherit in
    elim (Bool-cases (closes && has_flag meta.flags handle_flag_protect_from_close)) [
      | inl held ↦
          let e : drop_pin p none w ≡ some (r, w') = ground arith in
          Waits-later idx n w.table w'.table
            (ap (λ (t : Table). t.quarantine) (table-drop_pin p none w e)) s
      | inr free ↦
          elim (Bool-cases (closes && (access == meta.granted_access) && (flags == meta.flags))) [
            | inl same ↦
                let e : drop_pin p (some src) w ≡ some (r, w') = ground arith in
                Waits-later idx n w.table w'.table
                  (ap (λ (t : Table). t.quarantine) (table-drop_pin p (some src) w e)) s
            | inr new ↦
                let e : copy_entry src p closes access flags w ≡ some (r, w') = ground arith in
                Waits-copy_entry idx n src p closes access flags w e l s
          ]
    ]

pub Waits-duplicate :
    (idx n src desired : ℕ) (inherit : Bool) (options : ℕ) (w : World) {r : Option ℕ} {w' : World}
    → duplicate_to src desired inherit options w ≡ some (r, w')
    → n < quarantine_len - 1
    → Waits idx n w.table
    → Waits idx (n + 1) w'.table
unfolding duplicate_to
Waits-duplicate idx n src desired inherit options w {r} {w'} q l s =
    elim (Option-cases (get src w)) [
      | inl f ↦ absurd (ground arith)
      | inr ((none, w1), f) ↦
          let e : w1 ≡ w' = ground arith in
          Waits-later idx n w.table w'.table
            (ap (λ (x : World). x.table.quarantine) (sym e)
              ∙ ap (λ (t : Table). t.quarantine) (table-get src w f))
            s
      | inr ((some (p, meta), w1), f) ↦
          let e : duplicate_entry src p meta desired inherit options w1 ≡ some (r, w') =
            ground arith in
          Waits-duplicate_entry idx n src p meta desired inherit options w1 e l (
            Waits-same idx n w.table w1.table (ap (λ (t : Table). t.quarantine) (table-get src w f))
              s)
    ]
