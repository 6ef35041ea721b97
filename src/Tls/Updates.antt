-- ===== src/Tls/Updates.antt =====
-- `releaseSlot` and `setValue` of src/tls.cpp on the values of all slots.
use wibo.Base.{
  ◌>>=◌, ℕ, ◌+◌, ◌-◌, ◌≤◌, ◌<◌, ◌≡◌, ◌≢◌, ◌⊎◌, inl, inr, refl, sym, ◌∙◌, Bool, true, false, ◌||◌,
  Option, none, some, arith, ltb, leb, ◌==◌, if◌then◌else◌, set, Bool-cases, Option-cases,
}
use wibo.Tls.Memory.{Malloc, Tls, tls_slot_count, tls_max_slot_count, capacity_of}
use wibo.Tls.Grow.{ensure_expansion}
use wibo.Tls.Slots.{write_teb, is_slot_allocated, release_slot, set_expansion_value, set_value}
use wibo.Tls.Sound.{IsFresh, IsSound}
use wibo.Tls.Ensure.{SameValues, Kept, ensure_expansion-Kept}
use wibo.Tls.Written.{write_slot-Written, write_teb-WrittenDirect}
use wibo.Tls.Values.{
  Changed, Changed-Kept, Changed-direct, Changed-expansion, Zeroed, zero_slot-Zeroed,
}

-- What `releaseSlot` does.
abbrev pub Released : Tls → ℕ → Bool → Tls → Type 0
Released s i ok s' =
    ((ok ≡ false) × (s' ≡ s) × (is_slot_allocated i s ≡ false))
    ⊎ ((ok ≡ true) × (is_slot_allocated i s ≡ true) × Zeroed s i (set s.slot_used i false) s')

-- releaseSlot never faults. A slot that is out of range or not used is refused with no change; any other is
-- no longer used and null in every active thread, and every other slot keeps its value and its place.
pub release_slot-Released :
    (s : Tls) (i : ℕ)
    → IsSound s
    → (ok : Bool) × (s' : Tls) × ((release_slot i s ≡ some (ok, s')) × Released s i ok s')
unfolding release_slot is_slot_allocated
release_slot-Released s i v = elim (Bool-cases (leb tls_max_slot_count i)) [
  | inl e ↦ (false, s, (rw (release_slot, e) refl, inl (refl, refl, grind arith)))
  | inr e ↦ elim (Bool-cases (is_slot_allocated i s)) [
    | inr f ↦ (false, s, (rw (release_slot, e, f) refl, inl (refl, refl, f)))
    | inl f ↦
        let (s', (q, z)) = zero_slot-Zeroed s i false v (grind arith) in
        (true, s', (rw (release_slot, e, f, q) refl, inr (refl, f, z)))
  ]
]

-- What `setValue` does.
abbrev pub ValueSet : Tls → ℕ → ℕ → ℕ → Bool → Tls → Type 0
ValueSet s t i v ok s' =
    IsSound s'
    × (s'.slot_used ≡ s.slot_used)
    × (s'.active ≡ s.active)
    × (((ok ≡ false) × SameValues s s')
        ⊎ ((ok ≡ true) × (t ≢ 0) × (i < 1088) × Changed s (λ u. u == t) i v s'))

set_expansion_value-ValueSet :
    (s s1 : Tls) (t i v : ℕ)
    → Kept s s1
    → t ≢ 0
    → 64 ≤ i
    → i < 1088
    → (ok : Bool) × (s' : Tls) × ((set_expansion_value t (i - tls_slot_count) v s1 ≡ some (ok, s'))
        × ValueSet s t i v ok s')
unfolding set_expansion_value capacity_of
set_expansion_value-ValueSet s s1 t i v k nz lo hi = elim (Option-cases (s1.teb t).expansion) [
  | inl n ↦ (
    false,
    s1,
    (rw (set_expansion_value, n) refl, (k.sound, k.used_same, k.active_same, inl (refl, k.values))),
  )
  | inr (a, p) ↦
      let (arr, (e, l)) = k.sound.owned.live t a p in
      elim (Bool-cases (leb arr.capacity (i - tls_slot_count))) [
        | inl c ↦ (
          false,
          s1,
          (
            rw (set_expansion_value, p, capacity_of, e, ◌>>=◌, c) refl,
            (k.sound, k.used_same, k.active_same, inl (refl, k.values)),
          ),
        )
        | inr c ↦
            let (m', (q, w)) =
              write_slot-Written s1.teb s1.arrays t a (i - tls_slot_count) v arr k.sound.owned p e
                (grind arith) in
            let s' : Tls = record s1 { arrays = m' } in
            (
              true,
              s',
              (
                rw (set_expansion_value, p, capacity_of, e, ◌>>=◌, c, q) refl,
                (
                  record {
                    owned = w.0;
                    direct = k.sound.direct;
                    distinct = k.sound.distinct;
                    counted = k.sound.counted;
                    bounded = k.sound.bounded;
                  },
                  k.used_same,
                  k.active_same,
                  inr (
                    refl,
                    nz,
                    hi,
                    Changed-Kept s s1 s' (λ u. u == t) i v k.values
                        (Changed-expansion s1 (λ u. u == t) i v m' lo hi w),
                  ),
                ),
              ),
            )
      ]
]

-- setValue never faults. It fails and changes no slot, or succeeds for a thread and a slot in range, which
-- then has the value while every other slot of every thread has the value that it had, also when all the
-- arrays had to be replaced by larger ones.
pub set_value-ValueSet :
    (malloc : Malloc) (s : Tls) (t i v : ℕ)
    → IsFresh malloc
    → IsSound s
    → (ok : Bool) × (s' : Tls) × ((set_value malloc t i v s ≡ some (ok, s'))
        × ValueSet s t i v ok s')
unfolding set_value capacity_of
set_value-ValueSet malloc s t i v fresh sound =
    elim (Bool-cases ((t == 0) || leb tls_max_slot_count i)) [
      | inl e ↦ (false, s, (rw (set_value, e) refl, (sound, refl, refl, inl (refl, λ u j. refl))))
      | inr e ↦ elim (Bool-cases (ltb i tls_slot_count)) [
        | inl f ↦
            let lt : i < 64 = grind arith in
            let w = write_teb-WrittenDirect s.teb t i v (omega (arith, sound.direct t)) in
            let s' : Tls = record s { teb = write_teb s.teb t i v } in
            (
              true,
              s',
              (
                rw (set_value, e, f) refl,
                (
                  record {
                    owned = record {
                      live = λ u a q. sound.owned.live u a (sym (w.0 u).0 ∙ q);
                      own = λ u x a q r.
                          sound.owned.own u x a (sym (w.0 u).0 ∙ q) (sym (w.0 x).0 ∙ r);
                    };
                    direct = λ u. (w.0 u).1 ∙ sound.direct u;
                    distinct = sound.distinct;
                    counted = sound.counted;
                    bounded = sound.bounded;
                  },
                  refl,
                  refl,
                  inr (
                    refl,
                    (λ z. absurd (grind arith)),
                    omega arith,
                    Changed-direct s (λ u. u == t) i v (write_teb s.teb t i v) lt w,
                  ),
                ),
              ),
            )
        | inr f ↦
            let (c, ec) = held (s.teb t).expansion refl in
            let (ok, s1, (q, k)) = grown c in
            elim (Bool-cases ok) [
              | inr n ↦ (
                false,
                s1,
                (
                  rw (set_value, e, f, ec, ◌>>=◌, q, n) refl,
                  (k.sound, k.used_same, k.active_same, inl (refl, k.values)),
                ),
              )
              | inl y ↦
                  let (ok', s', (q', w)) =
                    set_expansion_value-ValueSet s s1 t i v k (λ z. absurd (grind arith))
                      (grind arith) (grind arith) in
                  (ok', s', (rw (set_value, e, f, ec, ◌>>=◌, q, y) q', w))
            ]
      ]
    ]
  where
    held : (o : Option ℕ) → (s.teb t).expansion ≡ o → (c : ℕ) × (capacity_of s.arrays o ≡ some c)
    held none p = (0, refl)
    held (some a) p =
        let (arr, (e, _)) = sound.owned.live t a p in (arr.capacity, rw (capacity_of, e) refl)

    grown :
        (c : ℕ)
        → (ok : Bool) × (s1 : Tls) × (((if leb c (i - tls_slot_count)
                then ensure_expansion malloc (i - tls_slot_count + 1) s
                else some (true, s))
              ≡ some (ok, s1))
            × Kept s s1)
    grown c = elim (Bool-cases (leb c (i - tls_slot_count))) [
      | inl y ↦ rw y (ensure_expansion-Kept malloc (i - tls_slot_count + 1) s fresh sound)
      | inr n ↦ rw n (
        true,
        s,
        (
          refl,
          record { sound = sound; values = λ u j. refl; used_same = refl; active_same = refl },
        ),
      )
    ]
