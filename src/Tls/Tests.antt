-- ===== src/Tls/Tests.antt =====
-- Runs of the thread-local slots: two threads, of which the first has an array with one slot.
use wibo.Base.{
  ℕ, zero, suc, ◌≡◌, refl, List, [], ◌∷◌, ◌++◌, Bool, true, false, none, some, arith, ◌==◌,
  if◌then◌else◌, Option-cases, inl, inr,
}
use wibo.Tls.Memory.{Malloc, TlsArray, Tls, zeros}
use wibo.Tls.Capacity.{Chosen, choose_capacity, choose_capacity_lem}
use wibo.Tls.Slots.{reserve_slot, release_slot, set_value}
use wibo.Tls.Sound.{IsFresh, IsSound}
use wibo.Tls.Values.{Reserved, reserve_slot-Reserved}
use wibo.Tls.Updates.{Released, release_slot-Released, ValueSet, set_value-ValueSet}

-- Three addresses.
abbrev small_malloc : Malloc
small_malloc m n = elim (m 1) [
  | none ↦ some 1
  | some _ ↦ elim (m 2) [ none ↦ some 2 | some _ ↦ elim (m 3) [ none ↦ some 3 | some _ ↦ none ] ]
]

small_malloc-IsFresh : IsFresh small_malloc
small_malloc-IsFresh m n a h = elim (Option-cases (m 1)) [
  | inl e ↦ grind (arith, e, h)
  | inr (x, e) ↦ elim (Option-cases (m 2)) [
    | inl f ↦ grind (arith, e, f, h)
    | inr (y, f) ↦ elim (Option-cases (m 3)) [
      | inl g ↦ grind (arith, e, f, g, h)
      | inr (z, g) ↦ absurd (grind (arith, e, f, g, h))
    ]
  ]
]

abbrev flags : ℕ → Bool → List Bool
flags zero b = []
flags (suc n) b = b ∷ flags n b

abbrev one_slot : TlsArray
one_slot = record { capacity = 1; slots = 77 ∷ [] }

abbrev two_threads : Tls
two_threads = record {
  slot_used = flags 65 true ++ flags 1023 false;
  active = 1000 ∷ (2000 ∷ []);
  expansion_capacity = 1;
  module_arrays = λ t. none;
  module_garbage = λ t. [];
  module_capacity = 0;
  teb = λ t. record {
    tls_slots = zeros 64;
    expansion = if t == 1000 then some 1 else none;
    storage_pointer = none;
  };
  arrays = λ a. if a == 1 then some one_slot else none;
}

two_threads-IsSound : IsSound two_threads
two_threads-IsSound = record {
  owned = record {
    live = λ t a h. (one_slot, (grind arith, refl));
    own = λ t u a h k. grind arith;
  };
  direct = λ t. refl;
  distinct = ((λ e. absurd (omega arith), refl), (refl, refl));
  counted = refl;
  bounded = omega arith;
}

reserve_slot-Reserved_example :
    (r : ℕ) × (s' : Tls) × ((reserve_slot small_malloc two_threads ≡ some (r, s'))
      × Reserved two_threads r s')
reserve_slot-Reserved_example =
    reserve_slot-Reserved small_malloc two_threads small_malloc-IsFresh two_threads-IsSound

release_slot-Released_example :
    (ok : Bool) × (s' : Tls) × ((release_slot 64 two_threads ≡ some (ok, s'))
      × Released two_threads 64 ok s')
release_slot-Released_example = release_slot-Released two_threads 64 two_threads-IsSound

set_value-ValueSet_example :
    (ok : Bool) × (s' : Tls) × ((set_value small_malloc 2000 64 5 two_threads ≡ some (ok, s'))
      × ValueSet two_threads 2000 64 5 ok s')
set_value-ValueSet_example =
    set_value-ValueSet small_malloc two_threads 2000 64 5 small_malloc-IsFresh two_threads-IsSound

choose_capacity_lem_example : Chosen 1 700 (choose_capacity 1 700)
choose_capacity_lem_example = choose_capacity_lem 1 700 (omega arith)
