-- ===== src/Handles/World.antt =====
-- The members of `Handles` (src/handles.cpp) as functions of the process's state: the objects, the
-- one table `wibo::handles()` and the namespace `g_namespace`. `none` is a fault: a use of a dead
-- object, or a slot out of range. Each of alloc, release, get, setInformation and getInformation takes
-- the table's lock for its bookkeeping. clear takes no lock, and duplicateTo none of its own: its get,
-- its alloc and its release each take the lock anew, and `duplicate_to` is the call with no other
-- thread in between.
use Prim.Native.Nat.{bit_and, bit_or}
use wibo.Base.{
  ◌>>=◌, ℕ, ◌+◌, ◌-◌, List, [], ◌∷◌, Option, none, some, Bool, true, false, not, ◌&&◌, ◌||◌, ◌==◌,
  if◌then◌else◌, u32, u32_max, get_elem?, set,
}
use wibo.Handles.Index.{index_of, make_handle, is_pseudo}
use wibo.Handles.Objects.{Objects, update, ref, deref, count_down}
use wibo.Handles.Table.{Meta, Entry, Table, pick_index, park, fill_entry, clear_entry, entry_at}
use wibo.Handles.Names.{Names, remove_name}

pub record World : Type 0 where
  pub objects : Objects
  pub table : Table
  pub names : Names

abbrev pub handle_flag_inherit : ℕ
handle_flag_inherit = 0x1

abbrev pub handle_flag_protect_from_close : ℕ
handle_flag_protect_from_close = 0x2

abbrev pub duplicate_close_source : ℕ
duplicate_close_source = 0x1

abbrev pub duplicate_same_access : ℕ
duplicate_same_access = 0x2

-- `x & flag` as a condition
abbrev pub has_flag : ℕ → ℕ → Bool
has_flag x flag = not (bit_and x flag == 0)

-- `Handles::alloc`. The caller's reference to `p` becomes the slot's.
unfoldable pub alloc : ℕ → ℕ → ℕ → World → Option (ℕ × World)
alloc p access flags w = do
  let (idx, t) = pick_index w.table
  e ← get_elem? t.slots idx
  o ← w.objects p
  some (
    make_handle idx,
    record w {
      table = record t { slots = set t.slots idx (fill_entry p o.kind access flags e) };
      objects = update w.objects p (some (record o { handle_count = u32 (o.handle_count + 1) }));
    },
  )

-- What `get` finds.
unfoldable pub lookup : Table → ℕ → Option (ℕ × Entry)
unfolding entry_at
lookup t h = if h == 0 || is_pseudo h then none else entry_at t h

-- `Handles::get`. A pin that is not empty comes with the entry's meta data and holds a reference.
unfoldable pub get : ℕ → World → Option (Option (ℕ × Meta) × World)
unfolding lookup ref
get h w = elim (lookup w.table h) [
  | none ↦ some (none, w)
  | some (p, e) ↦ do os ← ref p w.objects; some (some (p, e.meta), record w { objects = os })
]

-- The callback of `wibo::handles()`.
unfoldable pub on_handle_zero : ℕ → World → World
on_handle_zero p w = record w { names = remove_name p w.names }

-- The part of `Handles::release` past its guards.
unfoldable pub close_entry : ℕ → ℕ → Entry → World → Option (Bool × World)
close_entry idx p e w = do
  o ← w.objects p
  let left = count_down o.handle_count
  let w' : World = record w {
    table = park idx (record w.table { slots = set w.table.slots idx (clear_entry e) });
    objects = update w.objects p (some (record o { handle_count = left }));
  }
  let w'' = if left == 0 then on_handle_zero p w' else w'
  os ← deref p w''.objects
  some (true, record w'' { objects = os })

-- `Handles::release`
unfoldable pub release : ℕ → World → Option (Bool × World)
release h w = if is_pseudo h then some (true, w) else elim (entry_at w.table h) [
  | none ↦ some (false, w)
  | some (p, e) ↦
      if has_flag e.meta.flags handle_flag_protect_from_close
      then some (false, w)
      else close_entry (index_of h) p e w
]

-- ~mask on 32 bits
abbrev pub complement : ℕ → ℕ
complement mask = u32_max - u32 mask

-- The new flags of `Handles::setInformation`.
unfoldable pub merge_flags : ℕ → ℕ → ℕ → ℕ
merge_flags flags mask value =
    let allowed = bit_and mask (bit_or handle_flag_inherit handle_flag_protect_from_close) in
    bit_or (bit_and flags (complement allowed)) (bit_and value allowed)

-- `Handles::setInformation`
unfoldable pub set_information : ℕ → ℕ → ℕ → World → Bool × World
unfolding entry_at merge_flags
set_information h mask value w = if is_pseudo h then (true, w) else elim (entry_at w.table h) [
  | none ↦ (false, w)
  | some (p, e) ↦ (
    true,
    record w {
      table = record w.table {
        slots =
            set w.table.slots (index_of h)
              (record e { meta = record e.meta { flags = merge_flags e.meta.flags mask value } });
      };
    },
  )
]

-- `Handles::getInformation` with a place for the result: what it writes there, or `none` for false.
unfoldable pub get_information : ℕ → World → Option ℕ
unfolding entry_at
get_information h w =
    if is_pseudo h
    then some 0
    else elim (entry_at w.table h) [ none ↦ none | some (p, e) ↦ some e.meta.flags ]

abbrev pub effective_access : ℕ → ℕ → ℕ → ℕ
effective_access granted desired options =
    if has_flag options duplicate_same_access then granted else bit_and desired granted

abbrev pub inherit_flags : Bool → ℕ
inherit_flags inherit = if inherit then handle_flag_inherit else 0

-- A return of `duplicateTo` that drops the pin.
unfoldable pub drop_pin : ℕ → Option ℕ → World → Option (Option ℕ × World)
drop_pin p out w = do os ← deref p w.objects; some (out, record w { objects = os })

-- The end of `duplicateTo`, an alloc and a release one after the other: a new handle, and the source closed if so asked.
unfoldable pub copy_entry : ℕ → ℕ → Bool → ℕ → ℕ → World → Option (Option ℕ × World)
copy_entry src p closes access flags w = do
  (out, w') ← alloc p access flags w
  elim closes [
    | false ↦ some (some out, w')
    | true ↦ do (done, w'') ← release src w'; some (some out, w'')
  ]

-- `Handles::duplicateTo` past its `get`. Both tables are the one of `wibo::handles()`, as at every
-- call in the program. A `none` in the result is the source's `false`.
unfoldable pub duplicate_entry : ℕ → ℕ → Meta → ℕ → Bool → ℕ → World → Option (Option ℕ × World)
duplicate_entry src p meta desired inherit options w =
    let closes = has_flag options duplicate_close_source in
    let access = effective_access meta.granted_access desired options in
    let flags = inherit_flags inherit in
    if closes && has_flag meta.flags handle_flag_protect_from_close
    then drop_pin p none w
    else if closes && (access == meta.granted_access) && (flags == meta.flags)
    then drop_pin p (some src) w
    else copy_entry src p closes access flags w

-- `Handles::duplicateTo`, its three locked parts with no other thread in between.
unfoldable pub duplicate_to : ℕ → ℕ → Bool → ℕ → World → Option (Option ℕ × World)
duplicate_to src desired inherit options w = do
  (pin, w') ← get src w
  elim pin [
    | none ↦ some (none, w')
    | some (p, meta) ↦ duplicate_entry src p meta desired inherit options w'
  ]

deref_entries : List Entry → Objects → Option Objects
unfolding deref
deref_entries [] os = some os
deref_entries (e ∷ es) os = elim e.obj [
  | none ↦ deref_entries es os
  | some p ↦ elim (deref p os) [ none ↦ none | some os' ↦ deref_entries es os' ]
]

-- `Handles::clear`. The quarantine is not cleared.
unfoldable pub clear : World → Option World
unfolding deref_entries
clear w = do
  os ← deref_entries w.table.slots w.objects
  some (record w {
    objects = os;
    table = record w.table { slots = []; free_below = []; free_above = []; next_index = 0 };
  })
