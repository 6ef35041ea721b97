-- ===== src/Handles/Release.antt =====
-- `Handles::get` and `Handles::release`.
use native.Mathlib.Decide.{ℕ_discrete}
use wibo.Base.{
  ℕ, suc, ◌+◌, ◌<◌, ◌^◌, ◌≡◌, ◌≢◌, ◌⊎◌, inl, inr, refl, subst, Bool, true, false, Option, none,
  some, arith, ◌==◌, if◌then◌else◌, length, get_elem?, get_elem?-set, get_elem?-bound, set,
  Option-cases, Bool-cases,
}
use wibo.Handles.Index.{index_of, is_pseudo}
use wibo.Handles.Objects.{Object, Objects, update, ref, deref, count_down}
use wibo.Handles.Table.{Entry, Table, clear_entry, park}
use wibo.Handles.Names.{remove_name}
use wibo.Handles.Slots.{park-Parked, park-Inv}
use wibo.Handles.Counts.{
  holders, holders-set, holders-park, holders-pos, bump, CountedAt, Counted, IsSound,
}
use wibo.Handles.World.{
  World, get, lookup, release, close_entry, on_handle_zero, has_flag,
  handle_flag_protect_from_close,
}
use wibo.Handles.Lookup.{
  lookup-vacant, lookup-same, lookup-slot, entry_at-eq-lookup, index_of_injective,
}

-- What a handle finds is live.
pub lookup-live :
    (pins : ℕ → ℕ) (w : World) (h p : ℕ) (e : Entry)
    → Counted pins w
    → lookup w.table h ≡ some (p, e)
    → (o : Object) × (w.objects p ≡ some o)
lookup-live pins w h p e c f = elim (Option-cases (w.objects p)) [
  | inl dead ↦
      let s = lookup-slot w.table h p e f in
      absurd (ground (arith, c p, dead, holders-pos p w.table.slots (index_of h) e s.0 s.1))
  | inr live ↦ live
]

ref-Counted :
    (pins : ℕ → ℕ) (w : World) (p : ℕ) (o : Object)
    → w.objects p ≡ some o
    → pins p + holders p w.table.slots + 1 < 2 ^ 32
    → Counted pins w
    → (os : Objects) × (ref p w.objects ≡ some os)
      × Counted (bump p pins) (record w { objects = os })
unfolding ref
ref-Counted pins w p o live room c = (
  update w.objects p (some (record o { pointer_count = o.pointer_count + 1 })),
  ground (arith, c p),
  λ q. ground (arith, c q),
)

-- `get` never faults. A handle that finds nothing gives an empty pin and changes nothing; any other
-- gives a new pin of its object, and changes only that object's count.
pub get-IsSound :
    (pins : ℕ → ℕ) (w : World) (h : ℕ)
    → IsSound pins w
    → ((q : ℕ) → pins q + holders q w.table.slots + 1 < 2 ^ 32)
    → ((lookup w.table h ≡ none) × (get h w ≡ some (none, w)))
      ⊎ ((p : ℕ) × (e : Entry) × (os : Objects) × (lookup w.table h ≡ some (p, e))
          × (get h w ≡ some (some (p, e.meta), record w { objects = os }))
          × IsSound (bump p pins) (record w { objects = os }))
unfolding get
get-IsSound pins w h v room = elim (Option-cases (lookup w.table h)) [
  | inl e ↦ inl (e, ground arith)
  | inr ((p, e), f) ↦
      let (o, live) = lookup-live pins w h p e v.counts f in
      let (os, r, c) = ref-Counted pins w p o live (room p) v.counts in
      inr (p, e, os, f, ground (arith, r), record { slots = v.slots; counts = c })
]

-- What closing the handle `h` does: it finds nothing afterwards, and every other handle finds what it
-- found. The name of an object goes with its last handle.
pub record Released (w : World) (h : ℕ) (w' : World) : Type 0 where
  pub obj : ℕ
  pub entry : Entry
  pub was : lookup w.table h ≡ some (obj, entry)
  pub unprotected : has_flag entry.meta.flags handle_flag_protect_from_close ≡ false
  pub gone : lookup w'.table h ≡ none
  pub others : (k : ℕ) → k < 2 ^ 32 → k ≢ h → lookup w'.table k ≡ lookup w.table k
  pub names_kept :
      w'.names ≡ (if holders obj w'.table.slots == 0 then remove_name obj w.names else w.names)

abbrev closed_table : World → ℕ → Entry → Table
closed_table w h e =
    park (index_of h) (record w.table { slots = set w.table.slots (index_of h) (clear_entry e) })

holders-closed :
    (w : World) (h p q : ℕ) (e : Entry)
    → lookup w.table h ≡ some (p, e)
    → holders q (closed_table w h e).slots + (if p == q then 1 else 0) ≡ holders q w.table.slots
unfolding clear_entry
holders-closed w h p q e f =
    let s = lookup-slot w.table h p e f in
    ground (
      arith,
      holders-park q (index_of h)
          (record w.table { slots = set w.table.slots (index_of h) (clear_entry e) }),
      holders-set q w.table.slots (index_of h) e (clear_entry e) s.0,
      s.1,
    )

closed-slot :
    (w : World) (h p j : ℕ) (e : Entry)
    → lookup w.table h ≡ some (p, e)
    → get_elem? (closed_table w h e).slots j
      ≡ (if index_of h == j then some (clear_entry e) else get_elem? w.table.slots j)
closed-slot w h p j e f =
    let s = lookup-slot w.table h p e f in
    rw
      ((park-Parked (index_of h)
        (record w.table { slots = set w.table.slots (index_of h) (clear_entry e) })).slots)
      (get_elem?-set w.table.slots (index_of h) j (clear_entry e)
        (get_elem?-bound w.table.slots (index_of h) s.0))

cleared_obj : (e : Entry) → (clear_entry e).obj ≡ none
unfolding clear_entry
cleared_obj e = refl

-- The object store after the handle and the slot's reference are given back.
closed-objects :
    (os : Objects) (p n k : ℕ) (o : Object)
    → CountedAt n (suc k) (some o)
    → (os' : Objects) × (deref p
          (update os p (some (record o { handle_count = count_down o.handle_count })))
        ≡ some os')
      × CountedAt n k (os' p)
      × ((q : ℕ) → p ≢ q → os' q ≡ os q)
unfolding deref
closed-objects os p n k o c = elim (Bool-cases (o.pointer_count == 1)) [
  | inl last ↦ (
    update (update os p (some (record o { handle_count = count_down o.handle_count }))) p none,
    ground arith,
    ground arith,
    λ q ne. ground arith,
  )
  | inr more ↦ (
    update (update os p (some (record o { handle_count = count_down o.handle_count }))) p (
        some (record o {
          pointer_count = count_down o.pointer_count;
          handle_count = count_down o.handle_count;
        })),
    ground arith,
    ground arith,
    λ q ne. ground arith,
  )
]

abbrev pub Closes : (ℕ → ℕ) → World → ℕ → Option (Bool × World) → Type 0
Closes pins w h r = (w' : World) × (r ≡ some (true, w')) × IsSound pins w' × Released w h w'

-- The state that closing leaves, given the objects after the last `deref`.
abbrev closed : World → ℕ → ℕ → Entry → Objects → World
closed w h p e os = record {
  objects = os;
  table = closed_table w h e;
  names = if holders p (closed_table w h e).slots == 0 then remove_name p w.names else w.names;
}

close_entry-eq :
    (w : World) (h p : ℕ) (e : Entry) (o : Object) (os : Objects)
    → w.objects p ≡ some o
    → count_down o.handle_count ≡ holders p (closed_table w h e).slots
    → deref p (update w.objects p (some (record o { handle_count = count_down o.handle_count })))
      ≡ some os
    → close_entry (index_of h) p e w ≡ some (true, closed w h p e os)
unfolding close_entry on_handle_zero
close_entry-eq w h p e o os live left done = elim (Bool-cases (count_down o.handle_count == 0)) [
  | inl z ↦ rw (live, z, done) (rw (← left, z) refl)
  | inr n ↦ rw (live, n, done) (rw (← left, n) refl)
]

closed-Counted :
    (pins : ℕ → ℕ) (w : World) (h p : ℕ) (e : Entry) (os : Objects)
    → lookup w.table h ≡ some (p, e)
    → CountedAt (pins p) (holders p (closed_table w h e).slots) (os p)
    → ((q : ℕ) → p ≢ q → os q ≡ w.objects q)
    → Counted pins w
    → Counted pins (closed w h p e os)
closed-Counted pins w h p e os f at rest c q = elim (ℕ_discrete p q) [
  | yes same ↦ subst (λ x. CountedAt (pins x) (holders x (closed_table w h e).slots) (os x)) same at
  | no ne ↦
      let kept : holders q (closed_table w h e).slots ≡ holders q w.table.slots =
        ground (arith, holders-closed w h p q e f) in
      rw (rest q ne, kept) (c q)
]

closed-Released :
    (w : World) (h p : ℕ) (e : Entry) (os : Objects)
    → length w.table.slots < 2 ^ 29
    → h < 2 ^ 32
    → lookup w.table h ≡ some (p, e)
    → has_flag e.meta.flags handle_flag_protect_from_close ≡ false
    → Released w h (closed w h p e os)
closed-Released w h p e os room small f free = record {
  obj = p;
  entry = e;
  was = f;
  unprotected = free;
  gone =
      lookup-vacant (closed_table w h e) h
        (ground (arith, closed-slot w h p (index_of h) e f, cleared_obj e));
  others = λ j b ne. lookup-same w.table (closed_table w h e) j (
      ground (
        arith,
        closed-slot w h p (index_of j) e f,
        λ (q : index_of j ≡ index_of h). ne (index_of_injective w.table h j p e room small b f q),
      ));
  names_kept = refl;
}

close_entry-Closes :
    (pins : ℕ → ℕ) (w : World) (h p : ℕ) (e : Entry)
    → IsSound pins w
    → length w.table.slots < 2 ^ 29
    → h < 2 ^ 32
    → lookup w.table h ≡ some (p, e)
    → has_flag e.meta.flags handle_flag_protect_from_close ≡ false
    → Closes pins w h (close_entry (index_of h) p e w)
close_entry-Closes pins w h p e v room small f free =
    let (o, live) = lookup-live pins w h p e v.counts f in
    let s = lookup-slot w.table h p e f in
    let k : ℕ = holders p (closed_table w h e).slots in
    let fewer : holders p w.table.slots ≡ suc k = ground (arith, holders-closed w h p p e f) in
    let at : CountedAt (pins p) (suc k) (some o) = ground (arith, v.counts p, live, fewer) in
    let left : count_down o.handle_count ≡ k = omega (arith, at.1, at.3) in
    let (os, done, now, rest) = closed-objects w.objects p (pins p) k o at in
    (
      closed w h p e os,
      close_entry-eq w h p e o os live left done,
      record {
        slots = park-Inv w.table (index_of h) e (clear_entry e) p s.0 s.1 (cleared_obj e) v.slots;
        counts = closed-Counted pins w h p e os f now rest v.counts;
      },
      closed-Released w h p e os room small f free,
    )

-- `release` never faults, and does one of three things. A pseudo-handle succeeds and nothing
-- changes; a handle that finds nothing, or one protected from closing, is refused and nothing
-- changes; any other is closed, which keeps the slots and the counts sound.
pub release-IsSound :
    (pins : ℕ → ℕ) (w : World) (h : ℕ)
    → IsSound pins w
    → length w.table.slots < 2 ^ 29
    → h < 2 ^ 32
    → ((is_pseudo h ≡ true) × (release h w ≡ some (true, w)))
      ⊎ (((is_pseudo h ≡ false)
            × ((lookup w.table h ≡ none)
                ⊎ ((p : ℕ) × (e : Entry) × (lookup w.table h ≡ some (p, e))
                    × (has_flag e.meta.flags handle_flag_protect_from_close ≡ true)))
            × (release h w ≡ some (false, w)))
          ⊎ Closes pins w h (release h w))
unfolding release
release-IsSound pins w h v room small = elim (Bool-cases (is_pseudo h)) [
  | inl y ↦ inl (y, rw y)
  | inr n ↦
      let same = entry_at-eq-lookup w.table h room n in
      elim (Option-cases (lookup w.table h)) [
        | inl f ↦ inr (inl (n, inl f, rw (n, same, f)))
        | inr ((p, e), f) ↦
            elim (Bool-cases (has_flag e.meta.flags handle_flag_protect_from_close)) [
              | inl held ↦ inr (inl (n, inr (p, e, f, held), rw (n, same, f, held)))
              | inr free ↦
                  let (w', r, sound, out) = close_entry-Closes pins w h p e v room small f free in
                  inr (inr (w', rw (n, same, f, free) r, sound, out))
            ]
      ]
]
