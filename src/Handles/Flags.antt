-- ===== src/Handles/Flags.antt =====
-- `Handles::setInformation` and `Handles::getInformation`: which bits of a handle's flags a call
-- changes, and that it changes nothing else.
use wibo.Base.{
  ℕ, zero, suc, ◌-◌, ◌<◌, ◌^◌, ◌≡◌, ◌≢◌, ◌⊎◌, inl, inr, refl, true, false, ◌&&◌, none, some, arith,
  ltb, ◌==◌, if◌then◌else◌, u32, length, get_elem?, get_elem?-set, get_elem?-bound, set,
  Option-cases, Bool-cases, bit_and,
}
use wibo.Base.Bits.{
  test_bit, test_bit-le, test_bit-bit_and, test_bit-bit_or, test_bit-zero, test_bit-complement,
  bit_and-le_right,
}
use wibo.Handles.Index.{index_of, is_pseudo}
use wibo.Handles.Table.{Entry}
use wibo.Handles.Slots.{replace-Inv}
use wibo.Handles.Counts.{holders, holders-set, IsSound}
use wibo.Handles.World.{World, lookup, set_information, get_information, merge_flags}
use wibo.Handles.Lookup.{
  lookup-same, lookup-slot, lookup-full, entry_at-eq-lookup, index_of_injective,
}

-- The two low digits of 3 are set, and no others.
test_bit-three : (j : ℕ) → test_bit 3 j ≡ (if ltb j 2 then 1 else 0)
test_bit-three zero = refl
test_bit-three (suc zero) = refl
test_bit-three (suc (suc j)) = ground (arith, test_bit-zero j)

-- Of the 32 flags those two that the caller may set and the mask names come from the value, and the
-- others are kept.
pub merge_flags_lem :
    (flags mask value j : ℕ)
    → j < 32
    → test_bit (merge_flags flags mask value) j
      ≡ (if ltb j 2 && (test_bit mask j == 1) then test_bit value j else test_bit flags j)
unfolding merge_flags
merge_flags_lem flags mask value j b =
    let m : ℕ = bit_and mask 3 in
    ground (
      arith,
      test_bit-bit_or (bit_and flags (2 ^ 32 - 1 - u32 m)) (bit_and value m) j,
      test_bit-bit_and flags (2 ^ 32 - 1 - u32 m) j,
      test_bit-bit_and value m j,
      test_bit-bit_and mask 3 j,
      test_bit-complement 32 m j,
      test_bit-three j,
      bit_and-le_right mask 3,
      test_bit-le mask j,
      test_bit-le value j,
      test_bit-le flags j,
    )

-- The state that `setInformation` leaves: the entry of one slot has new flags.
abbrev reflagged : World → ℕ → Entry → ℕ → World
reflagged w h e flags = record w {
  table = record w.table {
    slots = set w.table.slots (index_of h) (record e { meta = record e.meta { flags = flags } });
  };
}

holders-reflagged :
    (w : World) (h p q : ℕ) (e : Entry) (flags : ℕ)
    → lookup w.table h ≡ some (p, e)
    → holders q (reflagged w h e flags).table.slots ≡ holders q w.table.slots
holders-reflagged w h p q e flags f = ground (
  arith,
  holders-set q w.table.slots (index_of h) e (record e { meta = record e.meta { flags = flags } })
      (lookup-slot w.table h p e f).0,
)

reflagged-slot :
    (w : World) (h p j : ℕ) (e : Entry) (flags : ℕ)
    → lookup w.table h ≡ some (p, e)
    → get_elem? (reflagged w h e flags).table.slots j ≡ (
        if index_of h == j
        then some (record e { meta = record e.meta { flags = flags } })
        else get_elem? w.table.slots j)
reflagged-slot w h p j e flags f =
    get_elem?-set w.table.slots (index_of h) j (record e { meta = record e.meta { flags = flags } })
      (get_elem?-bound w.table.slots (index_of h) (lookup-slot w.table h p e f).0)

-- Setting a handle's information: the handle finds the same object with the merged flags, every other
-- handle finds what it found, and the slots and the counts stay sound.
pub record Reflagged (pins : ℕ → ℕ) (w : World) (h mask value : ℕ) (w' : World) : Type 0 where
  pub obj : ℕ
  pub entry : Entry
  pub was : lookup w.table h ≡ some (obj, entry)
  pub found :
      lookup w'.table h
      ≡ some (
        obj,
        record entry {
          meta = record entry.meta { flags = merge_flags entry.meta.flags mask value };
        },
      )
  pub told : get_information h w' ≡ some (merge_flags entry.meta.flags mask value)
  pub others : (k : ℕ) → k < 2 ^ 32 → k ≢ h → lookup w'.table k ≡ lookup w.table k
  pub sound : IsSound pins w'

reflagged-Reflagged :
    (pins : ℕ → ℕ) (w : World) (h mask value p : ℕ) (e : Entry)
    → IsSound pins w
    → length w.table.slots < 2 ^ 29
    → h < 2 ^ 32
    → lookup w.table h ≡ some (p, e)
    → Reflagged pins w h mask value (reflagged w h e (merge_flags e.meta.flags mask value))
unfolding get_information
reflagged-Reflagged pins w h mask value p e v room small f =
    let flags : ℕ = merge_flags e.meta.flags mask value in
    let e' : Entry = record e { meta = record e.meta { flags = flags } } in
    let s = lookup-slot w.table h p e f in
    let stored : get_elem? (reflagged w h e flags).table.slots (index_of h) ≡ some e' =
      ground (arith, reflagged-slot w h p (index_of h) e flags f) in
    record {
      obj = p;
      entry = e;
      was = f;
      found = lookup-full _ h p e' s.3 s.2 stored s.1;
      told = ground (arith, stored, s);
      others = λ j b ne. lookup-same w.table _ j (
          ground (
            arith,
            reflagged-slot w h p (index_of j) e flags f,
            λ (q : index_of j ≡ index_of h).
                ne (index_of_injective w.table h j p e room small b f q),
          ));
      sound = record {
        slots = replace-Inv w.table (index_of h) e e' p p s.0 s.1 s.1 v.slots;
        counts = λ q. rw (holders-reflagged w h p q e flags f) (v.counts q);
      };
    }

-- `setInformation` does one of three things: a pseudo-handle succeeds and nothing changes, a handle
-- that finds nothing is refused and nothing changes, and any other gets the merged flags.
pub set_information-IsSound :
    (pins : ℕ → ℕ) (w : World) (h mask value : ℕ)
    → IsSound pins w
    → length w.table.slots < 2 ^ 29
    → h < 2 ^ 32
    → ((is_pseudo h ≡ true) × (set_information h mask value w ≡ (true, w)))
      ⊎ (((is_pseudo h ≡ false)
            × (lookup w.table h ≡ none)
            × (set_information h mask value w ≡ (false, w)))
          ⊎ ((w' : World) × (set_information h mask value w ≡ (true, w'))
              × Reflagged pins w h mask value w'))
unfolding set_information
set_information-IsSound pins w h mask value v room small = elim (Bool-cases (is_pseudo h)) [
  | inl y ↦ inl (y, rw y)
  | inr n ↦
      let same = entry_at-eq-lookup w.table h room n in
      elim (Option-cases (lookup w.table h)) [
        | inl f ↦ inr (inl (n, f, rw (n, same, f)))
        | inr ((p, e), f) ↦ inr (
            inr (
              reflagged w h e (merge_flags e.meta.flags mask value),
              rw (n, same, f),
              reflagged-Reflagged pins w h mask value p e v room small f,
            ))
      ]
]
