-- ===== src/Handles/Slots.antt =====
-- Which slots of the handle table are taken and which are parked: a partition of the indices, and
-- how `pick_index` and `park` (src/handles.cpp) keep it.
use wibo.Base.{
  ℕ, ◌+◌, ◌≤◌, ◌<◌, ◌^◌, ◌≡◌, ◌≢◌, refl, sym, subst, List, [], ◌∷◌, ◌++◌, Option, none, some, arith,
  ltb, ◌==◌, if◌then◌else◌, length, get_elem?, set, count, count-append, length-append, length-set,
  get_elem?-set, get_elem?-append_one, get_elem?_out, get_elem?-bound,
}
use native.Mathlib.Decide.{dec_le}
use wibo.Handles.Index.{compat_max_index, quarantine_len}
use wibo.Handles.Table.{Entry, Table, blank, empty_table, pick_index, quarantine_push, park}

-- 1 at a slot that holds an object, 0 at any other index.
abbrev pub entry_taken : Option Entry → ℕ
entry_taken none = 0
entry_taken (some e) = elim e.obj [ none ↦ 0 | some p ↦ 1 ]

abbrev pub taken : Table → ℕ → ℕ
taken t i = entry_taken (get_elem? t.slots i)

-- How often an index waits for its reuse.
abbrev pub parked : Table → ℕ → ℕ
parked t i = count i t.free_below + count i t.quarantine + count i t.free_above

abbrev pub present : Table → ℕ → ℕ
present t i = if ltb i (length t.slots) then 1 else 0

-- What the table keeps apart from the partition.
pub record Ranges (t : Table) : Type 0 where
  pub low : (i : ℕ) → compat_max_index < i → count i t.free_below + count i t.quarantine ≡ 0
  pub high : (i : ℕ) → i ≤ compat_max_index → count i t.free_above ≡ 0
  pub fresh_le : t.next_index ≤ compat_max_index + 1
  pub fresh : t.next_index ≤ compat_max_index → length t.slots ≡ t.next_index
  pub started : t.next_index ≤ length t.slots
  pub bounded : length t.quarantine ≤ quarantine_len

-- Each slot of the table is taken, or parked in exactly one list and there once.
pub record Inv (t : Table) : Type 0 where
  pub partition : (i : ℕ) → parked t i + taken t i ≡ present t i
  pub ranges : Ranges t

-- The table between `pick_index` and the store into the slot: the index is in none of the lists.
pub record Picked (t : Table) (idx : ℕ) (t' : Table) : Type 0 where
  pub in_range : idx < length t'.slots
  pub vacant : taken t' idx ≡ 0
  pub was_vacant : taken t idx ≡ 0
  pub same : (i : ℕ) → i ≢ idx → get_elem? t'.slots i ≡ get_elem? t.slots i
  pub partition : (i : ℕ) → parked t' i + taken t' i + (if idx == i then 1 else 0) ≡ present t' i
  pub ranges : Ranges t'
  pub grows : length t'.slots ≤ length t.slots + 1

pub empty_table-Inv : Inv empty_table
empty_table-Inv = record {
  partition = λ i. ground arith;
  ranges = record {
    low = λ i h. refl;
    high = λ i h. refl;
    fresh_le = omega arith;
    fresh = λ h. omega arith;
    started = omega arith;
    bounded = omega arith;
  };
}

-- A table that grew by a blank entry, with the other lists kept.
append_blank-Picked :
    (t t' : Table)
    → t'.slots ≡ t.slots ++ (blank ∷ [])
    → t'.free_below ≡ t.free_below
    → t'.free_above ≡ t.free_above
    → t'.quarantine ≡ t.quarantine
    → Inv t
    → Ranges t'
    → Picked t (length t.slots) t'
append_blank-Picked t t' es eb ea eq v r = record {
  in_range = ground (arith, length-append t.slots (blank ∷ []));
  vacant = ground (arith, get_elem?-append_one t.slots (length t.slots) blank);
  was_vacant = ground (arith, get_elem?_out t.slots (length t.slots));
  same = λ i ne. ground (arith, get_elem?-append_one t.slots i blank);
  partition = λ i. ground (
    arith,
    get_elem?-append_one t.slots i blank,
    length-append t.slots (blank ∷ []),
    get_elem?_out t.slots i,
    v.partition i,
  );
  ranges = r;
  grows = ground (arith, length-append t.slots (blank ∷ []));
}

-- A parked index that is taken off its list.
unpark-Picked :
    (t t' : Table) (idx : ℕ)
    → t'.slots ≡ t.slots
    → ((i : ℕ) → parked t i ≡ (if idx == i then 1 else 0) + parked t' i)
    → Inv t
    → Ranges t'
    → Picked t idx t'
unpark-Picked t t' idx es ep v r = record {
  in_range = ground (arith, ep idx, v.partition idx);
  vacant = ground (arith, ep idx, v.partition idx);
  was_vacant = ground (arith, ep idx, v.partition idx);
  same = λ i ne. ground arith;
  partition = λ i. ground (arith, ep i, v.partition i);
  ranges = r;
  grows = ground arith;
}

abbrev Picks : Table → ℕ × Table → Type 0
Picks t r = Picked t r.0 r.1

fresh-Picks : (t : Table) → t.next_index ≤ compat_max_index → Inv t → Picks t (pick_index t)
unfolding pick_index
fresh-Picks t h v =
    let e : length t.slots ≡ t.next_index = v.ranges.fresh h in
    let t' : Table = record t { next_index = t.next_index + 1; slots = t.slots ++ (blank ∷ []) } in
    let r : Ranges t' = record {
      low = v.ranges.low;
      high = v.ranges.high;
      fresh_le = omega arith;
      fresh = λ _. omega (arith, length-append t.slots (blank ∷ []));
      started = omega (arith, length-append t.slots (blank ∷ []));
      bounded = v.ranges.bounded;
    } in
    let p : Picked t (length t.slots) t' = append_blank-Picked t t' refl refl refl refl v r in
    let shape : pick_index t ≡ (length t.slots, t') = ground arith in subst (Picks t) (sym shape) p

reuse-Picks :
    (t : Table) (fb fa : List ℕ)
    → t.free_below ≡ fb
    → t.free_above ≡ fa
    → compat_max_index < t.next_index
    → length t.slots < 2 ^ 32
    → Inv t
    → Picks t (pick_index t)
unfolding pick_index
reuse-Picks t (idx ∷ rest) fa eb ea h room v =
    let t' : Table = record t { free_below = rest } in
    let r : Ranges t' = record {
      low = λ i l. ground (arith, v.ranges.low i l);
      high = v.ranges.high;
      fresh_le = v.ranges.fresh_le;
      fresh = v.ranges.fresh;
      started = v.ranges.started;
      bounded = v.ranges.bounded;
    } in
    let shape : pick_index t ≡ (idx, t') = ground arith in
    subst (Picks t) (sym shape) (unpark-Picked t t' idx refl (λ i. ground arith) v r)
reuse-Picks t [] (idx ∷ rest) eb ea h room v =
    let t' : Table = record t { free_above = rest } in
    let r : Ranges t' = record {
      low = v.ranges.low;
      high = λ i l. ground (arith, v.ranges.high i l);
      fresh_le = v.ranges.fresh_le;
      fresh = v.ranges.fresh;
      started = v.ranges.started;
      bounded = v.ranges.bounded;
    } in
    let shape : pick_index t ≡ (idx, t') = ground arith in
    subst (Picks t) (sym shape) (unpark-Picked t t' idx refl (λ i. ground arith) v r)
reuse-Picks t [] [] eb ea h room v =
    let t' : Table = record t { slots = t.slots ++ (blank ∷ []) } in
    let r : Ranges t' = record {
      low = v.ranges.low;
      high = v.ranges.high;
      fresh_le = v.ranges.fresh_le;
      fresh = λ l. absurd (omega arith);
      started = omega (arith, v.ranges.started, length-append t.slots (blank ∷ []));
      bounded = v.ranges.bounded;
    } in
    let shape : pick_index t ≡ (length t.slots, t') = ground arith in
    subst (Picks t) (sym shape) (append_blank-Picked t t' refl refl refl refl v r)

-- `pick_index` gives a vacant slot of the table and takes its index off the lists.
pub pick_index-Picked :
    (t : Table) → length t.slots < 2 ^ 32 → Inv t → Picked t (pick_index t).0 (pick_index t).1
pick_index-Picked t room v = elim (dec_le t.next_index compat_max_index) [
  | yes h ↦ fresh-Picks t h v
  | no h ↦ reuse-Picks t t.free_below t.free_above refl refl (omega arith) room v
]

-- The ranges do not look into the slots.
set-Ranges :
    (t : Table) (idx : ℕ) (e : Entry) → Ranges t → Ranges (record t { slots = set t.slots idx e })
set-Ranges t idx e r = record {
  low = r.low;
  high = r.high;
  fresh_le = r.fresh_le;
  fresh = λ h. ground (arith, r.fresh h, length-set t.slots idx e);
  started = ground (arith, r.started, length-set t.slots idx e);
  bounded = r.bounded;
}

-- Filling the slot that was picked restores the partition.
pub fill-Inv :
    (t t' : Table) (idx : ℕ) (e : Entry) (p : ℕ)
    → e.obj ≡ some p
    → Picked t idx t'
    → Inv (record t' { slots = set t'.slots idx e })
fill-Inv t t' idx e p full k = record {
  partition = λ i. ground (
    arith,
    k.partition i,
    k.in_range,
    k.vacant,
    get_elem?-set t'.slots idx i e,
    length-set t'.slots idx e,
  );
  ranges = set-Ranges t' idx e k.ranges;
}

-- An entry that takes the place of one which holds an object too.
pub replace-Inv :
    (t : Table) (idx : ℕ) (e e' : Entry) (p p' : ℕ)
    → get_elem? t.slots idx ≡ some e
    → e.obj ≡ some p
    → e'.obj ≡ some p'
    → Inv t
    → Inv (record t { slots = set t.slots idx e' })
replace-Inv t idx e e' p p' at full full' v = record {
  partition = λ i. ground (
    arith,
    v.partition i,
    get_elem?-set t.slots idx i e',
    get_elem?-bound t.slots idx at,
    length-set t.slots idx e',
  );
  ranges = set-Ranges t idx e' v.ranges;
}

-- What `quarantine_push` does to the lists: one more occurrence of the index, and no more than
-- `quarantine_len` in the quarantine.
record Pushed (idx : ℕ) (t t' : Table) : Type 0 where
  counted :
      (i : ℕ)
      → count i t'.free_below + count i t'.quarantine
        ≡ count i t.free_below + count i t.quarantine + (if idx == i then 1 else 0)
  above : t'.free_above ≡ t.free_above
  slots : t'.slots ≡ t.slots
  next : t'.next_index ≡ t.next_index
  bounded : length t.quarantine ≤ quarantine_len → length t'.quarantine ≤ quarantine_len

quarantine_push-Pushed :
    (idx : ℕ) (t : Table) (q : List ℕ) → t.quarantine ≡ q → Pushed idx t (quarantine_push idx t)
unfolding quarantine_push
quarantine_push-Pushed idx t [] e = record {
  counted = λ i. ground arith;
  above = ground arith;
  slots = ground arith;
  next = ground arith;
  bounded = λ h. ground arith;
}
quarantine_push-Pushed idx t (x ∷ q) e = record {
  counted = λ i. ground (arith, count-append i q (idx ∷ []));
  above = ground arith;
  slots = ground arith;
  next = ground arith;
  bounded = λ h. ground (arith, length-append q (idx ∷ []));
}

-- What `park` does: one more occurrence of the index, in the lists of its side.
pub record Parked (idx : ℕ) (t t' : Table) : Type 0 where
  pub counted : (i : ℕ) → parked t' i ≡ parked t i + (if idx == i then 1 else 0)
  pub slots : t'.slots ≡ t.slots
  pub ranges : Ranges t → Ranges t'

push-Parked : (idx : ℕ) (t t' : Table) → idx ≤ compat_max_index → Pushed idx t t' → Parked idx t t'
push-Parked idx t t' h p = record {
  counted = λ i. ground (arith, p.counted i, p.above);
  slots = p.slots;
  ranges = λ r. record {
    low = λ i l. ground (arith, p.counted i, r.low i l);
    high = λ i l. rw (p.above) (r.high i l);
    fresh_le = rw (p.next) r.fresh_le;
    fresh = rw (p.next, p.slots) r.fresh;
    started = rw (p.next, p.slots) r.started;
    bounded = p.bounded r.bounded;
  };
}

above-Parked :
    (idx : ℕ) (t : Table)
    → compat_max_index < idx
    → Parked idx t (record t { free_above = idx ∷ t.free_above })
above-Parked idx t h = record {
  counted = λ i. ground arith;
  slots = refl;
  ranges = λ r. record {
    low = r.low;
    high = λ i l. ground (arith, r.high i l);
    fresh_le = r.fresh_le;
    fresh = r.fresh;
    started = r.started;
    bounded = r.bounded;
  };
}

pub park-Parked : (idx : ℕ) (t : Table) → Parked idx t (park idx t)
unfolding park
park-Parked idx t = elim (dec_le idx compat_max_index) [
  | yes h ↦
      let shape : park idx t ≡ quarantine_push idx t = ground arith in
      subst (Parked idx t) (sym shape)
        (push-Parked idx t _ h (quarantine_push-Pushed idx t t.quarantine refl))
  | no h ↦
      let shape : park idx t ≡ record t { free_above = idx ∷ t.free_above } = ground arith in
      subst (Parked idx t) (sym shape) (above-Parked idx t (omega arith))
]

-- Clearing a slot and parking its index keeps the partition.
pub park-Inv :
    (t : Table) (idx : ℕ) (e e' : Entry) (p : ℕ)
    → get_elem? t.slots idx ≡ some e
    → e.obj ≡ some p
    → e'.obj ≡ none
    → Inv t
    → Inv (park idx (record t { slots = set t.slots idx e' }))
park-Inv t idx e e' p at full vacant v =
    let t' : Table = record t { slots = set t.slots idx e' } in
    let k = park-Parked idx t' in
    record {
      partition = λ i. ground (
        arith,
        v.partition i,
        k.counted i,
        k.slots,
        get_elem?-set t.slots idx i e',
        get_elem?-bound t.slots idx at,
        length-set t.slots idx e',
      );
      ranges = k.ranges (set-Ranges t idx e' v.ranges);
    }
