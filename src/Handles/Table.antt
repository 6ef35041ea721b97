-- ===== src/Handles/Table.antt =====
-- `Handles::Entry`, the members of `Handles`, and how `alloc` and `release` choose and park slot
-- indices (src/handles.h, src/handles.cpp). A vector that is used at its back is a list with the
-- back first; the quarantine is a list with the front first.
use wibo.Base.{
  ℕ, ◌+◌, List, [], ◌∷◌, ◌++◌, Option, none, some, ltb, leb, ◌==◌, if◌then◌else◌, u16, u32, length,
  get_elem?,
}
use wibo.Handles.Index.{compat_max_index, quarantine_len, index_of}
use wibo.Handles.Objects.{Kind, file}

-- `HandleMeta`
pub record Meta : Type 0 where
  pub granted_access : ℕ
  pub flags : ℕ
  pub type_cache : Kind
  pub generation : ℕ

-- `Handles::Entry`; the null pointer is `none`.
pub record Entry : Type 0 where
  pub obj : Option ℕ
  pub meta : Meta

-- A value-initialised entry.
abbrev pub blank : Entry
blank = record {
  obj = none;
  meta = record { granted_access = 0; flags = 0; type_cache = file; generation = 0 };
}

-- The members of `Handles`, but for the mutex and the callback.
pub record Table : Type 0 where
  pub slots : List Entry
  pub free_below : List ℕ
  pub free_above : List ℕ
  pub quarantine : List ℕ
  pub next_index : ℕ

abbrev pub empty_table : Table
empty_table = record {
  slots = [];
  free_below = [];
  free_above = [];
  quarantine = [];
  next_index = 0;
}

-- The slot that `alloc` takes, and the table with that slot in place.
unfoldable pub pick_index : Table → ℕ × Table
pick_index t =
    if leb t.next_index compat_max_index
    then (
      t.next_index,
      record t {
        next_index = u32 (t.next_index + 1);
        slots = if leb (length t.slots) t.next_index then t.slots ++ (blank ∷ []) else t.slots;
      },
    )
    else elim t.free_below [
      | idx ∷ rest ↦ (idx, record t { free_below = rest })
      | [] ↦ elim t.free_above [
        | idx ∷ rest ↦ (idx, record t { free_above = rest })
        | [] ↦ (u32 (length t.slots), record t { slots = t.slots ++ (blank ∷ []) })
      ]
    ]

-- `mQuarantine.push_back(idx)`, then one from the front to the free list if there are too many.
unfoldable pub quarantine_push : ℕ → Table → Table
quarantine_push idx t = elim (t.quarantine ++ (idx ∷ [])) [
  | [] ↦ t
  | front ∷ rest ↦
      if ltb quarantine_len (length (front ∷ rest))
      then record t { free_below = front ∷ t.free_below; quarantine = rest }
      else record t { quarantine = front ∷ rest }
]

-- Where `release` puts the index of a slot that it has cleared.
unfoldable pub park : ℕ → Table → Table
unfolding quarantine_push
park idx t =
    if leb idx compat_max_index
    then quarantine_push idx t
    else record t { free_above = idx ∷ t.free_above }

-- The entry that `alloc` leaves in its slot.
unfoldable pub fill_entry : ℕ → Kind → ℕ → ℕ → Entry → Entry
fill_entry p kind access flags e = record {
  obj = some p;
  meta = record {
    granted_access = access;
    flags = flags;
    type_cache = kind;
    generation = if e.meta.generation == 0 then 1 else e.meta.generation;
  };
}

-- The entry that `release` leaves in its slot.
unfoldable pub clear_entry : Entry → Entry
clear_entry e = record {
  obj = none;
  meta = record blank.meta { generation = u16 (e.meta.generation + 1) };
}

-- The tests `idx >= mSlots.size()` and `!e.obj`, with the pointer and the entry past them.
unfoldable pub entry_at : Table → ℕ → Option (ℕ × Entry)
entry_at t h = elim (get_elem? t.slots (index_of h)) [
  | none ↦ none
  | some e ↦ elim e.obj [ none ↦ none | some p ↦ some (p, e) ]
]
