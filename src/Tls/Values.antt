-- ===== src/Tls/Values.antt =====
-- What reserving, releasing and writing slots does to the values of src/tls.cpp.
use wibo.Base.{
  ◌>>=◌, ℕ, suc, ◌+◌, ◌-◌, ◌≤◌, ◌<◌, ◌≡◌, ◌⊎◌, inl, inr, refl, sym, ap, ◌∙◌, subst, List, [], ◌∷◌,
  Bool, true, false, not, ◌&&◌, ◌||◌, some, arith, ltb, leb, ◌==◌, if◌then◌else◌, length, get_elem?,
  set, length-set, Bool-cases,
}
use wibo.Tls.Memory.{Malloc, Arrays, Tls, tls_slot_count, tls_max_slot_count, invalid_tls_index}
use wibo.Tls.Grow.{ensure_expansion}
use wibo.Tls.Slots.{zero_direct, zero_slot, take_slot, reserve_from, reserve_slot, get_value}
use wibo.Tls.Modules.{member}
use wibo.Tls.Sound.{IsFresh, Blocks, IsSound}
use wibo.Tls.Ensure.{SameValues, Kept, ensure_expansion-Kept}
use wibo.Tls.Written.{Written, WrittenDirect, zero_expansion-Written, zero_direct-WrittenDirect}

-- Slot `i` of the threads that `here` picks has the value `v`, every other slot of every thread the value
-- that it had. There is no thread at the null address.
abbrev pub Changed : Tls → (ℕ → Bool) → ℕ → ℕ → Tls → Type 0
Changed s here i v s' =
    (u j : ℕ)
    → get_value u j s' ≡ (if not (u == 0) && here u && (j == i) then some v else get_value u j s)

pub Changed-direct :
    (s : Tls) (here : ℕ → Bool) (i v : ℕ) (teb' : Blocks)
    → i < 64
    → WrittenDirect s.teb here i v teb'
    → Changed s here i v (record s { teb = teb' })
unfolding get_value
Changed-direct s here i v teb' h (rest, slots) u j =
    elim (Bool-cases ((u == 0) || leb tls_max_slot_count j)) [
      | inl e ↦ rw (get_value, e) (ground arith)
      | inr e ↦ elim (Bool-cases (ltb j tls_slot_count)) [
        | inl f ↦ rw (get_value, e, f) (grind (arith, slots u j))
        | inr f ↦ rw (get_value, e, f) (grind (arith, (rest u).0))
      ]
    ]

pub Changed-expansion :
    (s : Tls) (here : ℕ → Bool) (i v : ℕ) (m' : Arrays)
    → 64 ≤ i
    → i < 1088
    → Written s.teb s.arrays here (i - 64) v m'
    → Changed s here i v (record s { arrays = m' })
unfolding get_value
Changed-expansion s here i v m' lo hi (_, slots) u j =
    elim (Bool-cases ((u == 0) || leb tls_max_slot_count j)) [
      | inl e ↦ rw (get_value, e) (ground arith)
      | inr e ↦ elim (Bool-cases (ltb j tls_slot_count)) [
        | inl f ↦ rw (get_value, e, f) (grind arith)
        | inr f ↦ rw (get_value, e, f) (grind (arith, slots u (j - 64)))
      ]
    ]

-- A state with the slot table `used`, sound and with slot `i` null in every active thread.
abbrev pub Zeroed : Tls → ℕ → List Bool → Tls → Type 0
Zeroed s i used s' =
    IsSound s'
    × Changed s (λ u. member u s.active) i 0 s'
    × (s'.slot_used ≡ used)
    × (s'.active ≡ s.active)

pub Changed-Kept :
    (s s1 s' : Tls) (here : ℕ → Bool) (i v : ℕ)
    → SameValues s s1
    → Changed s1 here i v s'
    → Changed s here i v s'
Changed-Kept s s1 s' here i v same c u j =
    c u j ∙ ap (λ z. if not (u == 0) && here u && (j == i) then some v else z) (same u j)

SameValues-slot_used : (s : Tls) (used : List Bool) → SameValues s (record s { slot_used = used })
unfolding get_value
SameValues-slot_used s used t i = refl

-- `zeroSlotForAllTibs`, once the slot's entry of the table is written.
pub zero_slot-Zeroed :
    (s : Tls) (i : ℕ) (b : Bool)
    → IsSound s
    → i < 1088
    → (s' : Tls) × ((zero_slot i (record s { slot_used = set s.slot_used i b }) ≡ some s')
        × Zeroed s i (set s.slot_used i b) s')
unfolding zero_slot
zero_slot-Zeroed s i b v h =
    let s1 : Tls = record s { slot_used = set s.slot_used i b } in
    elim (Bool-cases (ltb i tls_slot_count)) [
      | inl e ↦
          let lt : i < 64 = grind arith in
          let w = zero_direct-WrittenDirect s.active s.teb i (λ t. omega (arith, v.direct t)) in
          (
            record s1 { teb = zero_direct s.active i s.teb },
            (
              rw (zero_slot, e) refl,
              (
                record {
                  owned = record {
                    live = λ t a q. v.owned.live t a (sym (w.0 t).0 ∙ q);
                    own = λ t u a q r. v.owned.own t u a (sym (w.0 t).0 ∙ q) (sym (w.0 u).0 ∙ r);
                  };
                  direct = λ t. (w.0 t).1 ∙ v.direct t;
                  distinct = v.distinct;
                  counted = length-set s.slot_used i b ∙ v.counted;
                  bounded = v.bounded;
                },
                Changed-Kept s s1 (record s1 { teb = zero_direct s.active i s.teb })
                    (λ u. member u s.active) i 0 (SameValues-slot_used s (set s.slot_used i b))
                    (Changed-direct s1 (λ u. member u s.active) i 0 (zero_direct s.active i s.teb)
                      lt w),
                refl,
                refl,
              ),
            ),
          )
      | inr e ↦
          let (m', (q, w)) = zero_expansion-Written s.teb s.arrays s.active (i - 64) v.owned in
          (
            record s1 { arrays = m' },
            (
              rw (zero_slot, e, q) refl,
              (
                record {
                  owned = w.0;
                  direct = v.direct;
                  distinct = v.distinct;
                  counted = length-set s.slot_used i b ∙ v.counted;
                  bounded = v.bounded;
                },
                Changed-Kept s s1 (record s1 { arrays = m' }) (λ u. member u s.active) i 0
                    (SameValues-slot_used s (set s.slot_used i b))
                    (Changed-expansion s1 (λ u. member u s.active) i 0 m' (grind arith) h w),
                refl,
                refl,
              ),
            ),
          )
    ]

-- What `reserveSlot` does.
abbrev pub Reserved : Tls → ℕ → Tls → Type 0
Reserved s r s' =
    IsSound s'
    × (s'.active ≡ s.active)
    × (((r ≡ invalid_tls_index) × SameValues s s' × (s'.slot_used ≡ s.slot_used))
        ⊎ ((r < 1088)
            × (get_elem? s.slot_used r ≡ some false)
            × ((j : ℕ) → j < r → get_elem? s.slot_used j ≡ some true)
            × Changed s (λ u. member u s.active) r 0 s'
            × (s'.slot_used ≡ set s.slot_used r true)))

take_slot-Reserved :
    (malloc : Malloc) (s : Tls) (i : ℕ)
    → IsFresh malloc
    → IsSound s
    → i < 1088
    → get_elem? s.slot_used i ≡ some false
    → ((j : ℕ) → j < i → get_elem? s.slot_used j ≡ some true)
    → (r : ℕ) × (s' : Tls) × ((take_slot malloc i s ≡ some (r, s')) × Reserved s r s')
unfolding take_slot
take_slot-Reserved malloc s i fresh v h free first =
    let (ok, s1, (e, k)) = grown in
    elim (Bool-cases ok) [
      | inr f ↦ (
        invalid_tls_index,
        s1,
        (
          rw (take_slot, e, ◌>>=◌, f) refl,
          (k.sound, k.active_same, inl (refl, k.values, k.used_same)),
        ),
      )
      | inl t ↦
          let (s', (q, (v', c, us, ac))) = zero_slot-Zeroed s1 i true k.sound h in
          let c' : Changed s (λ u. member u s.active) i 0 s' =
            subst (λ z. Changed s (λ u. member u z) i 0 s') k.active_same
              (Changed-Kept s s1 s' (λ u. member u s1.active) i 0 k.values c) in
          (
            i,
            s',
            (
              rw (take_slot, e, ◌>>=◌, t, q) refl,
              (
                v',
                ac ∙ k.active_same,
                inr (h, free, first, c', us ∙ ap (λ z. set z i true) k.used_same),
              ),
            ),
          )
    ]
  where
    grown :
        (ok : Bool) × (s1 : Tls) × (((if leb tls_slot_count i
              then ensure_expansion malloc (i - tls_slot_count + 1) s
              else some (true, s))
            ≡ some (ok, s1))
          × Kept s s1)
    grown = elim (Bool-cases (leb tls_slot_count i)) [
      | inl t ↦ rw t (ensure_expansion-Kept malloc (i - tls_slot_count + 1) s fresh v)
      | inr f ↦ rw f (
        true,
        s,
        (refl, record { sound = v; values = λ u j. refl; used_same = refl; active_same = refl }),
      )
    ]

reserve_from-Reserved :
    (malloc : Malloc) (s : Tls) (index : ℕ) (rest : List Bool)
    → IsFresh malloc
    → IsSound s
    → index + length rest ≡ 1088
    → ((j : ℕ) → get_elem? s.slot_used (index + j) ≡ get_elem? rest j)
    → ((j : ℕ) → j < index → get_elem? s.slot_used j ≡ some true)
    → (r : ℕ) × (s' : Tls) × ((reserve_from malloc index rest s ≡ some (r, s')) × Reserved s r s')
unfolding reserve_from
reserve_from-Reserved malloc s index [] fresh v n same first =
    (invalid_tls_index, s, (refl, (v, refl, inl (refl, (λ u j. refl), refl))))
reserve_from-Reserved malloc s index (false ∷ rest) fresh v n same first =
    let at : get_elem? s.slot_used index ≡ some false =
      ap (get_elem? s.slot_used) (omega arith) ∙ same 0 in
    take_slot-Reserved malloc s index fresh v (omega arith) at first
reserve_from-Reserved malloc s index (true ∷ rest) fresh v n same first =
    let at : get_elem? s.slot_used index ≡ some true =
      ap (get_elem? s.slot_used) (omega arith) ∙ same 0 in
    reserve_from-Reserved malloc s (suc index) rest fresh v (omega arith)
      (λ j. ap (get_elem? s.slot_used) (omega arith) ∙ same (suc j))
      (λ j l. elim (Bool-cases (j == index)) [
        | inl e ↦ subst (λ z. get_elem? s.slot_used z ≡ some true) (grind arith) at
        | inr e ↦ first j (grind arith)
      ])

-- From a sound state, with an allocator that answers addresses not in use, reserveSlot never faults and the
-- state stays sound. It reserves the first slot that is not used, which is null in every active thread
-- afterwards, or fails and changes no slot; every other slot of every thread has the value that it had,
-- also when all the arrays had to be replaced by larger ones.
pub reserve_slot-Reserved :
    (malloc : Malloc) (s : Tls)
    → IsFresh malloc
    → IsSound s
    → (r : ℕ) × (s' : Tls) × ((reserve_slot malloc s ≡ some (r, s')) × Reserved s r s')
unfolding reserve_slot
reserve_slot-Reserved malloc s fresh v =
    reserve_from-Reserved malloc s 0 s.slot_used fresh v (omega (arith, v.counted))
      (λ j. ap (get_elem? s.slot_used) (omega arith)) (λ j h. absurd (omega arith))
