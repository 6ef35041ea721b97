-- ===== src/Tls/Prepared.antt =====
-- The first loop of the growth in src/tls.cpp: it leaves every array as it was and makes the new ones aside.
use wibo.Base.{
  ◌>>=◌, ℕ, ◌+◌, ◌*◌, ◌≤◌, ◌<◌, ◌≡◌, ◌≢◌, inl, inr, refl, sym, ap, ◌∙◌, List, [], ◌∷◌, false, ◌||◌,
  Option, none, some, arith, ltb, leb, ◌==◌, Bool-cases, Option-cases,
}
use wibo.Base.Maps.{put, put-same, put-other}
use wibo.Tls.Memory.{
  Malloc, Arrays, TlsArray, zeros, max_expansion_slots, allocate_array, free_array, read_slot,
  capacity_of,
}
use wibo.Tls.Grow.{PendingResize, give_back, also, prepare}
use wibo.Tls.Sound.{IsFresh, HasArray, NotMem, IsNoDup, Copy, copy_array-Copy}

-- No pending change is of this block, or makes this array.
abbrev pub NotTib : ℕ → List PendingResize → Type 0
NotTib t [] = ◌≡◌ {A = ℕ} 0 0
NotTib t ((u, _, _) ∷ ps) = (u ≢ t) × NotTib t ps

abbrev pub NotNew : ℕ → List PendingResize → Type 0
NotNew a [] = ◌≡◌ {A = ℕ} 0 0
NotNew a ((_, _, b) ∷ ps) = (b ≢ a) × NotNew a ps

-- The pending changes from memory `m`, once the new arrays are in `m'`: each takes a block from its present
-- array to a new one that reads the same, no two of them the same block or the same new array.
abbrev pub Ready : (ℕ → Option ℕ) → Arrays → Arrays → List PendingResize → Type 0
Ready pointer m m' [] = ◌≡◌ {A = ℕ} 0 0
Ready pointer m m' ((t, old, new) ∷ ps) =
    (pointer t ≡ old)
    × (m new ≡ none)
    × HasArray m' new
    × ((k : ℕ) → read_slot m' (some new) k ≡ read_slot m old k)
    × NotTib t ps
    × NotNew new ps
    × Ready pointer m m' ps

-- Whatever was allocated is still there, unchanged.
abbrev pub Extends : Arrays → Arrays → Type 0
Extends m m' = (a : ℕ) (arr : TlsArray) → m a ≡ some arr → m' a ≡ some arr

abbrev pub Prepared :
    (ℕ → Option ℕ) → List ℕ → Arrays → Arrays → Option (List PendingResize) → Type 0
Prepared pointer ts m m' none = (a : ℕ) → m' a ≡ m a
Prepared pointer ts m m' (some ps) = Ready pointer m m' ps × ((t : ℕ) → NotMem t ts → NotTib t ps)

-- An array that is there is no new one.
NotNew-Ready :
    (pointer : ℕ → Option ℕ) (m m' : Arrays) (ps : List PendingResize) (a : ℕ) (arr : TlsArray)
    → m a ≡ some arr
    → Ready pointer m m' ps
    → NotNew a ps
NotNew-Ready pointer m m' [] a arr e r = refl
NotNew-Ready pointer m m' ((t, old, new) ∷ ps) a arr e (_, dead, _, _, _, _, r) =
    (λ q. absurd (grind (arith, ap m q, dead, e)), NotNew-Ready pointer m m' ps a arr e r)

-- Pending changes from a memory with more arrays are changes from the smaller one.
Ready-Extends :
    (pointer : ℕ → Option ℕ) (m m1 m' : Arrays) (ps : List PendingResize)
    → ((t a : ℕ) → pointer t ≡ some a → HasArray m a)
    → Extends m m1
    → Ready pointer m1 m' ps
    → Ready pointer m m' ps
unfolding read_slot
Ready-Extends pointer m m1 m' [] live x r = refl
Ready-Extends pointer m m1 m' ((t, old, new) ∷ ps) live x (p, dead, has, reads, nt, nn, r) = (
  p,
  elim (Option-cases (m new)) [
    | inl e ↦ e
    | inr (arr, e) ↦ absurd (grind (arith, x new arr e, dead))
  ],
  has,
  λ k. reads k ∙ same_read old k p,
  nt,
  nn,
  Ready-Extends pointer m m1 m' ps live x r,
)
  where
    same_read : (o : Option ℕ) (k : ℕ) → pointer t ≡ o → read_slot m1 o k ≡ read_slot m o k
    same_read none k q = refl
    same_read (some a) k q = let (arr, (e, _)) = live t a q in rw (read_slot, e, x a arr e) refl

pub read_slot-same :
    (m m' : Arrays) (a : ℕ) (arr : TlsArray) (k : ℕ)
    → m a ≡ some arr
    → m' a ≡ some arr
    → read_slot m' (some a) k ≡ read_slot m (some a) k
unfolding read_slot
read_slot-same m m' a arr k e e' = rw (read_slot, e, e') refl

capacity_of-HasArray :
    (m : Arrays) (o : Option ℕ)
    → ((a : ℕ) → o ≡ some a → HasArray m a)
    → (c : ℕ) × (capacity_of m o ≡ some c)
unfolding capacity_of
capacity_of-HasArray m none live = (0, refl)
capacity_of-HasArray m (some a) live =
    let (arr, (e, _)) = live a refl in (arr.capacity, rw (capacity_of, e) refl)

-- Copying aside changes nothing that was allocated.
Copy-Extends :
    (target : ℕ) (old : Option ℕ) (new : ℕ) (m m' : Arrays)
    → m new ≡ none
    → Copy target old new m m'
    → Extends m m'
Copy-Extends target old new m m' dead (_, _, other) a arr e =
    other a (λ q. absurd (grind (arith, ap m q, dead, e))) ∙ e

HasArray-Extends : (m m' : Arrays) (a : ℕ) → Extends m m' → HasArray m a → HasArray m' a
HasArray-Extends m m' a x (arr, (e, l)) = (arr, (x a arr e, l))

-- One block's change in front of those of the blocks after it.
Prepared-also :
    (target : ℕ) (pointer : ℕ → Option ℕ) (tib new : ℕ) (ts : List ℕ) (m m2 m3 : Arrays)
    (r : Option (List PendingResize))
    → ((t a : ℕ) → pointer t ≡ some a → HasArray m a)
    → NotMem tib ts
    → m new ≡ none
    → Copy target (pointer tib) new m m2
    → Extends m2 m3
    → Prepared pointer ts m2 m3 r
    → (m' : Arrays) × (r' : Option (List PendingResize)) × ((give_back new
            (also (tib, pointer tib, new) (m3, r))
          ≡ some (m', r'))
        × Extends m m'
        × Prepared pointer (tib ∷ ts) m m' r')
unfolding give_back free_array
Prepared-also target pointer tib new ts m m2 m3 none live nm dead copy x prep =
    let (arr, (e, _)) = copy.0 in
    let e3 : m3 new ≡ some arr = x new arr e in
    let same : (a : ℕ) → put m3 new none a ≡ m a = λ a. elim (Bool-cases (a == new)) [
      | inl t ↦
          let q : a ≡ new = grind arith in
          ap (put m3 new none) q ∙ put-same m3 new none ∙ sym dead ∙ sym (ap m q)
      | inr f ↦
          let q : a ≢ new = λ z. absurd (grind arith) in
          put-other m3 new none a q ∙ prep a ∙ copy.2 a q
    ] in
    (put m3 new none, none, (rw (give_back, free_array, e3) refl, λ a b h. same a ∙ h, same))
Prepared-also target pointer tib new ts m m2 m3 (some ps) live nm dead copy x (ready, tibs) =
    let (arr, (e, l)) = copy.0 in
    let e3 : m3 new ≡ some arr = x new arr e in
    let x0 = Copy-Extends target (pointer tib) new m m2 dead copy in
    (
      m3,
      some ((tib, pointer tib, new) ∷ ps),
      (
        refl,
        λ a b h. x a b (x0 a b h),
        (
          (
            refl,
            dead,
            (arr, (e3, l)),
            λ k. read_slot-same m2 m3 new arr k e e3 ∙ copy.1 k,
            tibs tib nm,
            NotNew-Ready pointer m2 m3 ps new arr e ready,
            Ready-Extends pointer m m2 m3 ps live x0 ready,
          ),
          λ t (ne, h). (ne, tibs t h),
        ),
      ),
    )

Prepared-skip :
    (pointer : ℕ → Option ℕ) (tib : ℕ) (ts : List ℕ) (m m' : Arrays)
    (r : Option (List PendingResize))
    → Prepared pointer ts m m' r
    → Prepared pointer (tib ∷ ts) m m' r
Prepared-skip pointer tib ts m m' none p = p
Prepared-skip pointer tib ts m m' (some ps) (ready, tibs) = (ready, λ t (_, h). tibs t h)

allocate_array-none :
    (malloc : Malloc) (n : ℕ) (m : Arrays)
    → malloc m (8 + n * 4) ≡ none
    → allocate_array malloc n m ≡ none
unfolding allocate_array
allocate_array-none malloc n m h = grind (arith, h)

pub allocate_array-some :
    (malloc : Malloc) (n a : ℕ) (m : Arrays)
    → 0 < n
    → n ≤ 1024
    → malloc m (8 + n * 4) ≡ some a
    → allocate_array malloc n m
      ≡ some (a, put m a (some (record { capacity = n; slots = zeros n })))
unfolding allocate_array
allocate_array-some malloc n a m lo hi h =
    let z : ((n == 0) || ltb max_expansion_slots n) ≡ false = grind arith in
    rw (allocate_array, z, h) refl

-- The loop never faults. Where an allocation fails, the memory is as it was; else every array is as it
-- was and the pending changes are ready.
pub prepare-Prepared :
    (malloc : Malloc) (target : ℕ) (pointer : ℕ → Option ℕ) (ts : List ℕ) (m : Arrays)
    → IsFresh malloc
    → 0 < target
    → target ≤ 1024
    → IsNoDup ts
    → ((t a : ℕ) → pointer t ≡ some a → HasArray m a)
    → (m' : Arrays) × (r : Option (List PendingResize)) × ((prepare malloc target pointer ts m
          ≡ some (m', r))
        × Extends m m'
        × Prepared pointer ts m m' r)
unfolding prepare allocate_array
prepare-Prepared malloc target pointer [] m fresh lo hi nd live =
    (m, some [], (refl, λ a arr e. e, (refl, λ t h. refl)))
prepare-Prepared malloc target pointer (tib ∷ ts) m fresh lo hi (nm, nd) live =
    let (c, ec) = capacity_of-HasArray m (pointer tib) (live tib) in
    elim (Bool-cases (leb target c)) [
      | inl t ↦
          let (m', r, (e, x, p)) =
            prepare-Prepared malloc target pointer ts m fresh lo hi nd live in
          (m', r, (rw (prepare, ec, ◌>>=◌, t) e, x, Prepared-skip pointer tib ts m m' r p))
      | inr f ↦ elim (Option-cases (malloc m (8 + target * 4))) [
        | inl n ↦
            let al : allocate_array malloc target m ≡ none =
              allocate_array-none malloc target m n in
            (m, none, (rw (prepare, ec, ◌>>=◌, f, al) refl, λ a arr e. e, λ a. refl))
        | inr (new, n) ↦
            let dead : m new ≡ none = fresh m (8 + target * 4) new n in
            let al = allocate_array-some malloc target new m lo hi n in
            let (m2, (e2, copy)) =
              copy_array-Copy target new c (pointer tib) m (live tib) dead ec (grind arith) in
            let x0 = Copy-Extends target (pointer tib) new m m2 dead copy in
            let (m3, r, (e3, x, p)) =
              prepare-Prepared malloc target pointer ts m2 fresh lo hi nd
                (λ t a h. HasArray-Extends m m2 a x0 (live t a h)) in
            let (m', r', (e, x', p')) =
              Prepared-also target pointer tib new ts m m2 m3 r live nm dead copy x p in
            (m', r', (rw (prepare, ec, ◌>>=◌, f, al, e2, e3) e, x', p'))
      ]
    ]
