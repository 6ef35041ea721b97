-- ===== src/Tls/Sound.antt =====
-- What holds of the arrays of src/tls.cpp, and what one copy into a larger array keeps.
use wibo.Base.{
  ℕ, zero, suc, ◌≤◌, ◌<◌, ◌≡◌, ◌≢◌, refl, ap, ◌∙◌, List, [], ◌∷◌, Option, none, some, arith, ltb,
  min, if◌then◌else◌, length, get_elem?, same_some,
}
use wibo.Base.Maps.{put, put-same, put-other}
use wibo.Tls.Memory.{Malloc, Arrays, TlsArray, Teb, Tls, zeros, read_array, read_slot, capacity_of}
use wibo.Tls.Grow.{copy_slots, copy_array}

-- `guestMalloc` answers an address that is not in use.
abbrev pub IsFresh : Malloc → Type 0
IsFresh malloc = (m : Arrays) (n a : ℕ) → malloc m n ≡ some a → m a ≡ none

-- An array is allocated, with as many slots as its capacity says.
abbrev pub HasArray : Arrays → ℕ → Type 0
HasArray m a = (arr : TlsArray) × ((m a ≡ some arr) × (length arr.slots ≡ arr.capacity))

abbrev pub NotMem : ℕ → List ℕ → Type 0
NotMem t [] = ◌≡◌ {A = ℕ} 0 0
NotMem t (u ∷ us) = (u ≢ t) × NotMem t us

abbrev pub IsNoDup : List ℕ → Type 0
IsNoDup [] = ◌≡◌ {A = ℕ} 0 0
IsNoDup (u ∷ us) = NotMem u us × IsNoDup us

abbrev pub Blocks : Type 0
Blocks = ℕ → Teb

-- Every block's array is allocated, and its own.
pub record IsOwned (teb : Blocks) (m : Arrays) : Type 0 where
  pub live : (t a : ℕ) → (teb t).expansion ≡ some a → HasArray m a
  pub own : (t u a : ℕ) → (teb t).expansion ≡ some a → (teb u).expansion ≡ some a → t ≡ u

-- The state is sound: the array that a thread block points to for its expansion slots is allocated and its
-- own, a block has 64 direct slots, no block is active twice, and 1088 slots are accounted for.
pub record IsSound (s : Tls) : Type 0 where
  pub owned : IsOwned s.teb s.arrays
  pub direct : (t : ℕ) → length (s.teb t).tls_slots ≡ 64
  pub distinct : IsNoDup s.active
  pub counted : length s.slot_used ≡ 1088
  pub bounded : s.expansion_capacity ≤ 1024

length-zeros : (n : ℕ) → length (zeros n) ≡ n
length-zeros zero = refl
length-zeros (suc n) = ap suc (length-zeros n)

get_elem?-zeros : (n k : ℕ) → k < n → get_elem? (zeros n) k ≡ some 0
get_elem?-zeros zero k h = absurd (omega arith)
get_elem?-zeros (suc n) zero h = refl
get_elem?-zeros (suc n) (suc k) h = get_elem?-zeros n k (omega arith)

length-copy_slots : (n : ℕ) (src dst : List ℕ) → length (copy_slots n src dst) ≡ length dst
length-copy_slots zero src dst = refl
length-copy_slots (suc n) [] dst = refl
length-copy_slots (suc n) (v ∷ src) [] = refl
length-copy_slots (suc n) (v ∷ src) (d ∷ dst) = ap suc (length-copy_slots n src dst)

get_elem?-copy_slots :
    (n : ℕ) (src dst : List ℕ) (k : ℕ)
    → n ≤ length src
    → n ≤ length dst
    → get_elem? (copy_slots n src dst) k ≡ (if ltb k n then get_elem? src k else get_elem? dst k)
get_elem?-copy_slots zero src dst k h g = ground arith
get_elem?-copy_slots (suc n) [] dst k h g = absurd (omega arith)
get_elem?-copy_slots (suc n) (v ∷ src) [] k h g = absurd (omega arith)
get_elem?-copy_slots (suc n) (v ∷ src) (d ∷ dst) zero h g = ground arith
get_elem?-copy_slots (suc n) (v ∷ src) (d ∷ dst) (suc k) h g =
    ground (arith, get_elem?-copy_slots n src dst k (omega arith) (omega arith))

-- The larger copy reads like the array, at every slot.
read_array-copied :
    (old : TlsArray) (target k : ℕ)
    → length old.slots ≡ old.capacity
    → old.capacity < target
    → read_array
        (record {
          capacity = target;
          slots = copy_slots (min old.capacity target) old.slots (zeros target);
        })
        k
      ≡ read_array old k
unfolding read_array
read_array-copied old target k l h =
    let m : min old.capacity target ≡ old.capacity = omega arith in
    let z : k < target → get_elem? (zeros target) k ≡ some 0 = get_elem?-zeros target k in
    let c =
      get_elem?-copy_slots old.capacity old.slots (zeros target) k (omega arith)
        (omega (arith, length-zeros target)) in
    rw m (ground (arith, z, c))

-- What allocating a larger array and copying the present one there does: a new address, whose array reads
-- like the present one, and no change at any other.
abbrev pub Copy : ℕ → Option ℕ → ℕ → Arrays → Arrays → Type 0
Copy target old new m m' =
    HasArray m' new
    × ((k : ℕ) → read_slot m' (some new) k ≡ read_slot m old k)
    × ((a : ℕ) → a ≢ new → m' a ≡ m a)

read_array-zeros :
    (target k : ℕ) → read_array (record { capacity = target; slots = zeros target }) k ≡ some 0
unfolding read_array
read_array-zeros target k = ground (arith, get_elem?-zeros target k)

abbrev new_array : ℕ → TlsArray
new_array target = record { capacity = target; slots = zeros target }

pub copy_array-Copy :
    (target new current : ℕ) (old : Option ℕ) (m : Arrays)
    → ((a : ℕ) → old ≡ some a → HasArray m a)
    → m new ≡ none
    → capacity_of m old ≡ some current
    → current < target
    → (m' : Arrays) × ((copy_array old new
            (put m new (some (record { capacity = target; slots = zeros target })))
          ≡ some m')
        × Copy target old new m m')
unfolding copy_array read_slot capacity_of
copy_array-Copy target new current none m live dead c lt =
    let e = put-same m new (some (new_array target)) in
    (
      put m new (some (new_array target)),
      (
        refl,
        (
          (new_array target, (e, length-zeros target)),
          λ k. rw (read_slot, e) (read_array-zeros target k),
          λ a n. put-other m new (some (new_array target)) a n,
        ),
      ),
    )
copy_array-Copy target new current (some a) m live dead c lt =
    let (o, (eo, lo)) = live a refl in
    let base : Arrays = put m new (some (new_array target)) in
    let grown : TlsArray = record (new_array target) {
      slots = copy_slots (min o.capacity target) o.slots (zeros target);
    } in
    let ne : a ≢ new = λ q. absurd (grind (arith, ap m q, dead, eo)) in
    let ea : base a ≡ some o = put-other m new (some (new_array target)) a ne ∙ eo in
    let en : base new ≡ some (new_array target) = put-same m new (some (new_array target)) in
    let q : o.capacity ≡ current = same_some (rw (capacity_of, eo) refl) c in
    let eg : put base new (some grown) new ≡ some grown = put-same base new (some grown) in
    (
      put base new (some grown),
      (
        rw (copy_array, ea, en) refl,
        (
          (
            grown,
            (
              eg,
              length-copy_slots (min o.capacity target) o.slots (zeros target)
                  ∙ length-zeros target,
            ),
          ),
          λ k. rw (read_slot, eg, eo) (read_array-copied o target k lo (omega arith)),
          λ b n.
              put-other base new (some grown) b n ∙ put-other m new (some (new_array target)) b n,
        ),
      ),
    )
