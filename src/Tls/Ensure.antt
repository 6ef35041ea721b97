-- ===== src/Tls/Ensure.antt =====
-- The growth of src/tls.cpp as a whole keeps the value of every slot of every thread.
use wibo.Base.{
  ℕ, ◌-◌, ◌≤◌, ◌≡◌, inl, inr, refl, ap, ◌∙◌, List, Bool, true, false, ◌||◌, Option, none, some,
  arith, ltb, leb, ◌==◌, length, get_elem?, Bool-cases,
}
use wibo.Tls.Memory.{Malloc, Arrays, Tls, read_slot, tls_slot_count, tls_max_slot_count}
use wibo.Tls.Capacity.{choose_capacity, choose_capacity_lem}
use wibo.Tls.Grow.{PendingResize, install, finish_growth, ensure_expansion}
use wibo.Tls.Slots.{get_value}
use wibo.Tls.Sound.{IsFresh, IsSound}
use wibo.Tls.Prepared.{Prepared, Extends, prepare-Prepared}
use wibo.Tls.Installed.{SameReads, install-SameReads}

-- All that `getValue` reads is the same.
abbrev pub SameValues : Tls → Tls → Type 0
SameValues s s' = (t i : ℕ) → get_value t i s' ≡ get_value t i s

pub get_value-same :
    (s s' : Tls)
    → ((t : ℕ) → (s'.teb t).tls_slots ≡ (s.teb t).tls_slots)
    → SameReads s.teb s.arrays s'.teb s'.arrays
    → SameValues s s'
unfolding get_value
get_value-same s s' direct reads t i = elim (Bool-cases ((t == 0) || leb tls_max_slot_count i)) [
  | inl e ↦ rw (get_value, e) refl
  | inr e ↦ elim (Bool-cases (ltb i tls_slot_count)) [
    | inl f ↦ rw (get_value, e, f) (ap (λ z. get_elem? z i) (direct t))
    | inr f ↦ rw (get_value, e, f) (reads t (i - tls_slot_count))
  ]
]

-- What the growth keeps.
pub record Kept (s s' : Tls) : Type 0 where
  pub sound : IsSound s'
  pub values : SameValues s s'
  pub used_same : s'.slot_used ≡ s.slot_used
  pub active_same : s'.active ≡ s.active

finish_growth-Kept :
    (target : ℕ) (s : Tls) (m : Arrays) (r : Option (List PendingResize))
    → IsSound s
    → target ≤ 1024
    → Extends s.arrays m
    → Prepared (λ t. (s.teb t).expansion) s.active s.arrays m r
    → (ok : Bool) × (s' : Tls) × ((finish_growth target s (m, r) ≡ some (ok, s')) × Kept s s')
unfolding finish_growth
finish_growth-Kept target s m none v hi x p =
    let s' : Tls = record s { arrays = m } in
    (
      false,
      s',
      (
        refl,
        record {
          sound = record {
            owned = record {
              live = λ t a h. let (arr, (e, l)) = v.owned.live t a h in (arr, (x a arr e, l));
              own = v.owned.own;
            };
            direct = v.direct;
            distinct = v.distinct;
            counted = v.counted;
            bounded = v.bounded;
          };
          values = get_value-same s s' (λ t. refl) (λ t k. same_read (s.teb t).expansion k);
          used_same = refl;
          active_same = refl;
        },
      ),
    )
  where
    same_read : (o : Option ℕ) (k : ℕ) → read_slot m o k ≡ read_slot s.arrays o k
    same_read none k = unfold read_slot in refl
    same_read (some a) k = unfold read_slot in (rw (read_slot, p a) refl)
finish_growth-Kept target s m (some ps) v hi x (ready, _) =
    let (m', (e, o, reads, direct)) = install-SameReads s.teb s.arrays m ps v.owned x ready in
    let s' : Tls = record s { teb = install ps s.teb; arrays = m'; expansion_capacity = target } in
    (
      true,
      s',
      (
        rw (finish_growth, e) refl,
        record {
          sound = record {
            owned = o;
            direct = λ t. ap length (direct t) ∙ v.direct t;
            distinct = v.distinct;
            counted = v.counted;
            bounded = hi;
          };
          values = get_value-same s s' direct reads;
          used_same = refl;
          active_same = refl;
        },
      ),
    )

abbrev Kept-refl : (s : Tls) → IsSound s → Kept s s
Kept-refl s v = record { sound = v; values = λ t i. refl; used_same = refl; active_same = refl }

-- ensureGlobalExpansionCapacityLocked never faults, and whether or not it succeeds the state stays sound and
-- every slot of every thread has the value that it had.
pub ensure_expansion-Kept :
    (malloc : Malloc) (required : ℕ) (s : Tls)
    → IsFresh malloc
    → IsSound s
    → (ok : Bool) × (s' : Tls) × ((ensure_expansion malloc required s ≡ some (ok, s')) × Kept s s')
unfolding ensure_expansion
ensure_expansion-Kept malloc required s fresh v =
    let target : ℕ = choose_capacity s.expansion_capacity required in
    elim (Bool-cases (required == 0)) [
      | inl z ↦ (true, s, (rw (ensure_expansion, z) refl, Kept-refl s v))
      | inr z ↦ elim (Bool-cases (leb required s.expansion_capacity)) [
        | inl e ↦ (true, s, (rw (ensure_expansion, z, e) refl, Kept-refl s v))
        | inr e ↦ elim (Bool-cases (target == 0)) [
          | inl f ↦ (false, s, (rw (ensure_expansion, z, e, f) refl, Kept-refl s v))
          | inr f ↦
              let hi : target ≤ 1024 =
                grind (arith, choose_capacity_lem s.expansion_capacity required v.bounded) in
              let (m, r, (ep, x, p)) =
                prepare-Prepared malloc target (λ t. (s.teb t).expansion) s.active s.arrays fresh
                  (grind arith) hi v.distinct v.owned.live in
              let (ok, s', (ef, k)) = finish_growth-Kept target s m r v hi x p in
              (ok, s', (rw (ensure_expansion, z, e, f, ep) ef, k))
        ]
      ]
    ]
