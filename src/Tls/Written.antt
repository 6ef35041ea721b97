-- ===== src/Tls/Written.antt =====
-- What writing one slot does to the values of all of them (src/tls.cpp).
use wibo.Base.{
  ℕ, ◌<◌, ◌≡◌, ◌≢◌, inl, inr, refl, sym, ap, ◌∙◌, subst, List, [], ◌∷◌, Bool, true, ◌&&◌, Option,
  none, some, arith, ltb, leb, ◌==◌, if◌then◌else◌, length, get_elem?, set, length-set,
  get_elem?-set, same_some, Bool-cases,
}
use wibo.Base.Maps.{put, put-same, put-other}
use wibo.Tls.Memory.{Arrays, TlsArray, Teb, read_array, read_slot, write_slot, capacity_of}
use wibo.Tls.Slots.{write_if_there, zero_expansion, write_teb, zero_direct}
use wibo.Tls.Modules.{member}
use wibo.Tls.Sound.{HasArray, Blocks, IsOwned}

-- After a write of `v` to slot `k` of the blocks that `here` picks, every slot of the arrays reads so.
abbrev pub Written : Blocks → Arrays → (ℕ → Bool) → ℕ → ℕ → Arrays → Type 0
Written teb m here k v m' =
    IsOwned teb m'
    × ((u j : ℕ)
        → read_slot m' (teb u).expansion j
          ≡ (if here u && (j == k) then some v else read_slot m (teb u).expansion j))

read_array-set :
    (arr : TlsArray) (k v j : ℕ)
    → length arr.slots ≡ arr.capacity
    → k < arr.capacity
    → read_array (record arr { slots = set arr.slots k v }) j
      ≡ (if j == k then some v else read_array arr j)
unfolding read_array
read_array-set arr k v j l h = ground (arith, get_elem?-set arr.slots k j v (omega arith))

-- A write through the pointer of one block.
pub write_slot-Written :
    (teb : Blocks) (m : Arrays) (t a k v : ℕ) (arr : TlsArray)
    → IsOwned teb m
    → (teb t).expansion ≡ some a
    → m a ≡ some arr
    → k < arr.capacity
    → (m' : Arrays) × ((write_slot m a k v ≡ some m') × Written teb m (λ u. u == t) k v m')
unfolding write_slot read_slot
write_slot-Written teb m t a k v arr o p e h =
    let (arr', (e', l')) = o.live t a p in
    let q : arr' ≡ arr = same_some e' e in
    let l : length arr.slots ≡ arr.capacity = subst (λ z. length z.slots ≡ z.capacity) q l' in
    let new : TlsArray = record arr { slots = set arr.slots k v } in
    let m' : Arrays = put m a (some new) in
    let there : m' a ≡ some new = put-same m a (some new) in
    let fits : ltb k (length arr.slots) ≡ true = grind arith in
    (
      m',
      (
        rw (write_slot, e, fits) refl,
        (
          record {
            live = λ u b r. elim (Bool-cases (b == a)) [
              | inl x ↦
                  let y : a ≡ b = grind arith in
                  subst (HasArray m') y (new, (there, length-set arr.slots k v ∙ l))
              | inr x ↦
                  let (arr2, (e2, l2)) = o.live u b r in
                  (arr2, (put-other m a (some new) b (λ z. absurd (grind arith)) ∙ e2, l2))
            ];
            own = o.own;
          },
          λ u j. elim (Bool-cases (u == t)) [
            | inl x ↦
                let y : t ≡ u = grind arith in
                let pu : (teb u).expansion ≡ some a = subst (λ z. (teb z).expansion ≡ some a) y p in
                rw (pu, read_slot, there, e, x) (read_array-set arr k v j l h)
            | inr x ↦ rw x (other u j (teb u).expansion refl (λ z. absurd (grind arith)))
          ],
        ),
      ),
    )
  where
    other :
        (u j : ℕ) (r : Option ℕ)
        → (teb u).expansion ≡ r
        → u ≢ t
        → read_slot (put m a (some (record arr { slots = set arr.slots k v }))) r j
          ≡ read_slot m r j
    other u j none s n = refl
    other u j (some b) s n =
        let w =
          put-other m a (some (record arr { slots = set arr.slots k v })) b
            (λ z. n (o.own u t a (s ∙ ap some z) p)) in
        rw (read_slot, w) refl

read_slot-past :
    (m : Arrays) (a : ℕ) (arr : TlsArray) (j : ℕ)
    → m a ≡ some arr
    → leb arr.capacity j ≡ true
    → read_slot m (some a) j ≡ some 0
unfolding read_slot read_array
read_slot-past m a arr j e x = rw (read_slot, e, read_array, x) refl

-- A slot past the capacity, or without an array, reads as null already.
write_if_there-Written :
    (teb : Blocks) (m : Arrays) (t k : ℕ)
    → IsOwned teb m
    → (m' : Arrays) × ((write_if_there m (teb t).expansion k 0 ≡ some m')
        × Written teb m (λ u. u == t) k 0 m')
write_if_there-Written teb m t k o = go (teb t).expansion refl
  where
    null_there :
        (r : Option ℕ)
        → (teb t).expansion ≡ r
        → read_slot m r k ≡ some 0
        → Written teb m (λ u. u == t) k 0 m
    null_there r p z = (
      o,
      λ u j. elim (Bool-cases ((u == t) && (j == k))) [
        | inr x ↦ rw x refl
        | inl x ↦
            let y : t ≡ u = grind arith in
            let w : k ≡ j = grind arith in
            let pu : (teb u).expansion ≡ r = subst (λ z. (teb z).expansion ≡ r) y p in
            rw (x, pu) (subst (λ z. read_slot m r z ≡ some 0) w z)
      ],
    )

    go :
        (r : Option ℕ)
        → (teb t).expansion ≡ r
        → (m' : Arrays) × ((write_if_there m r k 0 ≡ some m') × Written teb m (λ u. u == t) k 0 m')
    go none p = (m, (unfold write_if_there in refl, null_there none p (unfold read_slot in refl)))
    go (some a) p =
        let (arr, (e, l)) = o.live t a p in
        elim (Bool-cases (leb arr.capacity k)) [
          | inl x ↦ (
            m,
            (
              unfold write_if_there capacity_of in (rw (write_if_there, capacity_of, e, x) refl),
              null_there (some a) p (read_slot-past m a arr k e x),
            ),
          )
          | inr x ↦
              let (m', (q, w)) = write_slot-Written teb m t a k 0 arr o p e (grind arith) in
              (
                m',
                (
                  unfold write_if_there capacity_of in (rw (write_if_there, capacity_of, e, x) q),
                  w,
                ),
              )
        ]

-- The loop nulls the slot in every block of the list.
pub zero_expansion-Written :
    (teb : Blocks) (m : Arrays) (ts : List ℕ) (k : ℕ)
    → IsOwned teb m
    → (m' : Arrays) × ((zero_expansion teb ts k m ≡ some m')
        × Written teb m (λ u. member u ts) k 0 m')
unfolding zero_expansion
zero_expansion-Written teb m [] k o = (m, (refl, (o, λ u j. refl)))
zero_expansion-Written teb m (t ∷ ts) k o =
    let (m1, (e1, (o1, r1))) = write_if_there-Written teb m t k o in
    let (m2, (e2, (o2, r2))) = zero_expansion-Written teb m1 ts k o1 in
    (m2, (rw (zero_expansion, e1) e2, (o2, λ u j. r2 u j ∙ ground (arith, r1 u j))))

-- The direct slot `i` of one block.
write_teb-direct :
    (teb : Blocks) (t i v u j : ℕ)
    → i < length (teb t).tls_slots
    → get_elem? (write_teb teb t i v u).tls_slots j
      ≡ (if (u == t) && (j == i) then some v else get_elem? (teb u).tls_slots j)
unfolding write_teb
write_teb-direct teb t i v u j h = elim (Bool-cases (u == t)) [
  | inl x ↦
      let y : t ≡ u = grind arith in
      let e = put-same teb t (record (teb t) { tls_slots = set (teb t).tls_slots i v }) in
      subst
        (λ z.
          get_elem?
            (put teb t (record (teb t) { tls_slots = set (teb t).tls_slots i v }) z).tls_slots j
          ≡ (if (z == t) && (j == i) then some v else get_elem? (teb z).tls_slots j))
        y
        (ap (λ z. get_elem? z.tls_slots j) e
          ∙ ground (arith, get_elem?-set (teb t).tls_slots i j v h))
  | inr x ↦ rw x (
      ap (λ z. get_elem? z.tls_slots j)
        (put-other teb t (record (teb t) { tls_slots = set (teb t).tls_slots i v }) u
          (λ z. absurd (grind arith))))
]

write_teb-rest :
    (teb : Blocks) (t i v u : ℕ)
    → ((write_teb teb t i v u).expansion ≡ (teb u).expansion)
      × (length (write_teb teb t i v u).tls_slots ≡ length (teb u).tls_slots)
unfolding write_teb
write_teb-rest teb t i v u = elim (Bool-cases (u == t)) [
  | inl x ↦
      let y : t ≡ u = grind arith in
      let new : Teb = record (teb t) { tls_slots = set (teb t).tls_slots i v } in
      let e = put-same teb t new in
      subst
        (λ z.
          ((put teb t new z).expansion ≡ (teb z).expansion)
          × (length (put teb t new z).tls_slots ≡ length (teb z).tls_slots))
        y
        (ap (λ z. z.expansion) e, ap (λ z. length z.tls_slots) e ∙ length-set (teb t).tls_slots i v)
  | inr x ↦
      let e =
        put-other teb t (record (teb t) { tls_slots = set (teb t).tls_slots i v }) u
          (λ z. absurd (grind arith)) in
      (ap (λ z. z.expansion) e, ap (λ z. length z.tls_slots) e)
]

-- What writing the direct slot `i` of the blocks that `here` picks does.
abbrev pub WrittenDirect : Blocks → (ℕ → Bool) → ℕ → ℕ → Blocks → Type 0
WrittenDirect teb here i v teb' =
    ((u : ℕ)
      → ((teb' u).expansion ≡ (teb u).expansion)
        × (length (teb' u).tls_slots ≡ length (teb u).tls_slots))
    × ((u j : ℕ)
        → get_elem? (teb' u).tls_slots j
          ≡ (if here u && (j == i) then some v else get_elem? (teb u).tls_slots j))

pub write_teb-WrittenDirect :
    (teb : Blocks) (t i v : ℕ)
    → i < length (teb t).tls_slots
    → WrittenDirect teb (λ u. u == t) i v (write_teb teb t i v)
write_teb-WrittenDirect teb t i v h =
    (write_teb-rest teb t i v, λ u j. write_teb-direct teb t i v u j h)

pub zero_direct-WrittenDirect :
    (ts : List ℕ) (teb : Blocks) (i : ℕ)
    → ((t : ℕ) → i < length (teb t).tls_slots)
    → WrittenDirect teb (λ u. member u ts) i 0 (zero_direct ts i teb)
unfolding zero_direct
zero_direct-WrittenDirect [] teb i h = (λ u. (refl, refl), λ u j. refl)
zero_direct-WrittenDirect (t ∷ ts) teb i h =
    let teb1 : Blocks = write_teb teb t i 0 in
    let (a, b) = write_teb-WrittenDirect teb t i 0 (h t) in
    let (c, d) =
      zero_direct-WrittenDirect ts teb1 i (λ u. subst (λ n. i < n) (sym (a u).1) (h u)) in
    (λ u. ((c u).0 ∙ (a u).0, (c u).1 ∙ (a u).1), λ u j. d u j ∙ ground (arith, b u j))
