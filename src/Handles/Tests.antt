-- ===== src/Handles/Tests.antt =====
-- Runs of the handle table, and the theorems at concrete states: object 7 with one pin, then with one
-- handle, which is 4.
use wibo.Base.{ℕ, ◌+◌, ◌-◌, ◌<◌, ◌^◌, ◌≡◌, ◌⊎◌, refl, [], ◌∷◌, none, some, true, false, arith}
use wibo.Base.Bits.{test_bit}
use wibo.Handles.Index.{
  index_of, make_handle, is_pseudo, make_handle_lem, compat_max_index, quarantine_len,
}
use wibo.Handles.Objects.{Objects, event, file, Object, update, deref}
use wibo.Handles.Table.{Entry, empty_table, pick_index, park, fill_entry, clear_entry, entry_at}
use wibo.Handles.Names.{Name, Names, find_name, get_name, insert_name, remove_name}
use wibo.Handles.Counts.{IsSound, bump}
use wibo.Handles.World.{
  World, alloc, release, get, lookup, set_information, merge_flags, duplicate_to, close_entry,
  on_handle_zero, has_flag, handle_flag_protect_from_close,
}
use wibo.Handles.Alloc.{Allocated, alloc-Allocated}
use wibo.Handles.Release.{Closes, release-IsSound, get-IsSound}
use wibo.Handles.Flags.{Reflagged, set_information-IsSound, merge_flags_lem}
use wibo.Handles.Duplicate.{Duplicated, duplicate_to-Duplicated}
use wibo.Handles.History.{
  State, HasRoom, make_pin, allocs, Reach, here, next, start, fresh_object, Reach-IsSound,
}
use wibo.Handles.Stale.{stale_handle}
use wibo.Handles.Compat.{compat_taken, alloc-compat, compat_taken-zero}
use wibo.Handles.Naming.{insert_name-get_name, find_name-remove_name}

-- Object 7 with its first pin.
abbrev pinned : State
pinned = record {
  pins = bump 7 (λ _. 0);
  world = record start.world {
    objects = update start.world.objects 7 (some (fresh_object event 1));
  };
}

abbrev seven : Object
seven = fresh_object event 1

abbrev slot : Entry
slot = record {
  obj = some 7;
  meta = record { granted_access = 3; flags = 0; type_cache = event; generation = 1 };
}

-- The same with a handle in place of the pin.
abbrev held : State
held = record {
  pins = λ _. 0;
  world = record pinned.world {
    table = record empty_table { slots = slot ∷ []; next_index = 1 };
    objects = update pinned.world.objects 7 (some (record seven { handle_count = 1 }));
  };
}

allocs_first : alloc 7 3 0 pinned.world ≡ some (4, held.world)
unfolding alloc pick_index fill_entry make_handle
allocs_first = refl

start-HasRoom : HasRoom start
start-HasRoom = record { slots = omega arith; pinned = λ q. omega arith }

pinned-HasRoom : HasRoom pinned
pinned-HasRoom = record { slots = omega arith; pinned = λ q. ground arith }

made : Reach start pinned
made = next here start-HasRoom (make_pin 7 1 event refl refl refl)

handed : Reach start held
handed = next made pinned-HasRoom (allocs 7 3 0 4 seven refl refl allocs_first)

Reach-IsSound_example : IsSound held.pins held.world
Reach-IsSound_example = Reach-IsSound handed

-- The state after handle 4 is closed: the object is gone, and index 0 is in quarantine.
abbrev shut_slot : Entry
shut_slot = record {
  obj = none;
  meta = record { granted_access = 0; flags = 0; type_cache = file; generation = 2 };
}

abbrev closed : State
closed = record {
  pins = λ _. 0;
  world = record held.world {
    table = record held.world.table { slots = shut_slot ∷ []; quarantine = 0 ∷ [] };
    objects =
        update (update held.world.objects 7 (some (record seven { handle_count = 0 }))) 7 none;
    names = [];
  };
}

closes_first : release 4 held.world ≡ some (true, closed.world)
unfolding release close_entry entry_at index_of clear_entry park on_handle_zero deref remove_name
    is_pseudo
closes_first = refl

held-HasRoom : HasRoom held
held-HasRoom = record { slots = omega arith; pinned = λ q. ground arith }

closed-HasRoom : HasRoom closed
closed-HasRoom = record { slots = omega arith; pinned = λ q. ground arith }

held-IsSound : IsSound held.pins held.world
held-IsSound = Reach-IsSound handed

pinned-IsSound : IsSound (bump 7 held.pins) pinned.world
pinned-IsSound = Reach-IsSound made

finds_first : lookup held.world.table 4 ≡ some (7, slot)
unfolding lookup is_pseudo index_of
finds_first = refl

alloc-Allocated_example :
    (h : ℕ) × (w' : World) × (alloc 7 3 0 pinned.world ≡ some (h, w'))
    × Allocated pinned.world 7 seven 3 0 h w'
    × IsSound held.pins w'
alloc-Allocated_example =
    alloc-Allocated held.pins pinned.world 7 seven 3 0 pinned-IsSound (omega arith) refl

stale_handle_example : lookup closed.world.table 4 ≡ none
unfolding index_of
stale_handle_example =
    stale_handle {s = held} {t = closed} {u = closed} 4 7 slot handed held-HasRoom (omega arith)
      (omega arith) finds_first refl closes_first here (omega arith)

release-IsSound_example :
    ((is_pseudo 4 ≡ true) × (release 4 held.world ≡ some (true, held.world)))
    ⊎ (((is_pseudo 4 ≡ false)
          × ((lookup held.world.table 4 ≡ none)
              ⊎ ((p : ℕ) × (e : Entry) × (lookup held.world.table 4 ≡ some (p, e))
                  × (has_flag e.meta.flags handle_flag_protect_from_close ≡ true)))
          × (release 4 held.world ≡ some (false, held.world)))
        ⊎ Closes held.pins held.world 4 (release 4 held.world))
release-IsSound_example =
    release-IsSound held.pins held.world 4 held-IsSound (omega arith) (omega arith)

get-IsSound_example :
    ((lookup held.world.table 4 ≡ none) × (get 4 held.world ≡ some (none, held.world)))
    ⊎ ((p : ℕ) × (e : Entry) × (os : Objects) × (lookup held.world.table 4 ≡ some (p, e))
        × (get 4 held.world ≡ some (some (p, e.meta), record held.world { objects = os }))
        × IsSound (bump p held.pins) (record held.world { objects = os }))
get-IsSound_example = get-IsSound held.pins held.world 4 held-IsSound (λ q. ground arith)

set_information-IsSound_example :
    ((is_pseudo 4 ≡ true) × (set_information 4 3 2 held.world ≡ (true, held.world)))
    ⊎ (((is_pseudo 4 ≡ false)
          × (lookup held.world.table 4 ≡ none)
          × (set_information 4 3 2 held.world ≡ (false, held.world)))
        ⊎ ((w' : World) × (set_information 4 3 2 held.world ≡ (true, w'))
            × Reflagged held.pins held.world 4 3 2 w'))
set_information-IsSound_example =
    set_information-IsSound held.pins held.world 4 3 2 held-IsSound (omega arith) (omega arith)

merge_flags_lem_example : test_bit (merge_flags 1 3 2) 1 ≡ 1
merge_flags_lem_example = merge_flags_lem 1 3 2 1 (omega arith)

-- A copy that may be inherited, with the source kept.
duplicate_to-Duplicated_example :
    Duplicated held.pins held.world 4 0 true 2 (duplicate_to 4 0 true 2 held.world)
duplicate_to-Duplicated_example =
    duplicate_to-Duplicated held.pins held.world 4 0 true 2 held-IsSound (λ q. ground arith)
      (omega arith) (omega arith)

few_taken : compat_taken pinned.world.table < compat_max_index + 1 - quarantine_len
few_taken = omega (arith, compat_taken-zero pinned.world.table refl)

alloc-compat_example : 4 < 0x8000
alloc-compat_example =
    alloc-compat pinned.pins pinned.world 7 3 0 pinned-IsSound (omega arith) few_taken allocs_first

abbrev a_name : Name
a_name = 97 ∷ []

insert_name-get_name_example :
    let (inserted, t) = insert_name a_name (some 7) false [] in
    (inserted ≡ true) × (get_name a_name t ≡ some 7) × (inserted ≡ false → t ≡ [])
unfolding insert_name get_name
insert_name-get_name_example = insert_name-get_name a_name a_name (some 7) false []

abbrev one_name : Names
one_name = (a_name, record { obj = 7; permanent = false }) ∷ []

find_name-remove_name_example : find_name a_name (remove_name 7 one_name) ≡ none
find_name-remove_name_example = find_name-remove_name 7 a_name one_name (refl, (λ _. tt), tt)

make_handle_lem_example :
    (index_of (make_handle 8190) ≡ 8190)
    × (is_pseudo (make_handle 8190) ≡ false)
    × (0 < make_handle 8190)
    × (make_handle 8190 < 2 ^ 31)
make_handle_lem_example = make_handle_lem 8190 (omega arith)

abbrev wiped : World
wiped = record closed.world { table = record empty_table { quarantine = 0 ∷ [] } }
