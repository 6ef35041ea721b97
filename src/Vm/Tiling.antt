-- ===== src/Vm/Tiling.antt =====
-- The mappings of src/heap.cpp do not overlap, and a reservation keeps it so.
use wibo.Base.{
  ℕ, ◌+◌, ◌-◌, ◌^◌, ◌≤◌, ◌<◌, ◌≡◌, inl, inr, refl, ap, ◌∙◌, [], ◌∷◌, false, arith, ltb, leb, ◌==◌,
  Bool-cases,
}
use wibo.Vm.Align.{add_ptr, add_overflows}
use wibo.Vm.Mapping.{Mappings, from_floor, overlaps_from, overlaps_existing}
use wibo.Vm.FreeRange.{IsFree, IsSortedFrom}

-- From `lo` on, each mapping starts at its key, is not empty, and ends before the next, below 2 GiB.
unfoldable pub IsTiled : ℕ → Mappings → Type 0
IsTiled lo [] = lo ≡ lo
IsTiled lo ((k, i) ∷ ms) =
    (lo ≤ k)
    × (i.base_address ≡ k)
    × (0 < i.region_size)
    × (k + i.region_size ≤ 2 ^ 31)
    × IsTiled (k + i.region_size) ms

pub IsSortedFrom-IsTiled : (lo k : ℕ) (ms : Mappings) → IsTiled k ms → lo ≤ k → IsSortedFrom lo ms
unfolding IsTiled IsSortedFrom
IsSortedFrom-IsTiled lo k [] t h = refl
IsSortedFrom-IsTiled lo k ((key, i) ∷ ms) (l, b, p, u, t) h = (
  omega arith,
  omega arith,
  omega arith,
  IsSortedFrom-IsTiled key (key + i.region_size) ms t (omega arith),
)

IsFree-IsTiled : (lo a n : ℕ) (ms : Mappings) → IsTiled lo ms → a + n ≤ lo → IsFree a n ms
unfolding IsTiled IsFree
IsFree-IsTiled lo a n [] t h = refl
IsFree-IsTiled lo a n ((k, i) ∷ ms) (l, b, p, u, t) h =
    (inr (omega arith), IsFree-IsTiled (k + i.region_size) a n ms t (omega arith))

-- The loop finds no overlap only where there is none.
overlaps_from-IsFree :
    (lo a n : ℕ) (ms : Mappings)
    → IsTiled lo ms
    → overlaps_from a (a + n) ms ≡ false
    → IsFree a n ms
unfolding IsTiled IsFree overlaps_from
overlaps_from-IsFree lo a n [] t h = refl
overlaps_from-IsFree lo a n ((k, i) ∷ ms) (l, b, p, u, t) h =
    let z : (i.region_size == 0) ≡ false = grind arith in
    let w : add_ptr i.base_address i.region_size ≡ k + i.region_size = omega arith in
    elim (Bool-cases (leb (k + i.region_size) a)) [
      | inl t1 ↦ (
        inl (grind arith),
        overlaps_from-IsFree (k + i.region_size) a n ms t (grind (arith, z, w, t1, h)),
      )
      | inr f1 ↦ elim (Bool-cases (leb (a + n) k)) [
        | inl t2 ↦ (inr (grind arith), IsFree-IsTiled (k + i.region_size) a n ms t (grind arith))
        | inr f2 ↦ absurd (grind (arith, z, w, f1, f2, b, h))
      ]
    ]

-- What the search from the floor leaves out ends before `a`.
from_floor-IsFree :
    (lo a n : ℕ) (ms : Mappings)
    → IsTiled lo ms
    → ((ms' : Mappings) (lo' : ℕ) → IsTiled lo' ms' → ms' ≡ from_floor a ms → IsFree a n ms')
    → IsFree a n ms
unfolding IsTiled IsFree from_floor
from_floor-IsFree lo a n [] t h = refl
from_floor-IsFree lo a n (m ∷ []) t h = h (m ∷ []) lo t refl
from_floor-IsFree lo a n ((k, i) ∷ ((k', j) ∷ ms)) (l, b, p, u, t) h =
    elim (Bool-cases (leb k' a)) [
      | inl t1 ↦ (
        inl (grind (arith, t.0)),
        from_floor-IsFree (k + i.region_size) a n ((k', j) ∷ ms) t
            (λ ms' lo' t' e. h ms' lo' t' (rw t1 e)),
      )
      | inr f1 ↦ h ((k, i) ∷ ((k', j) ∷ ms)) lo (l, b, p, u, t) (rw f1 refl)
    ]

-- The check finds no overlap only where there is none.
pub overlaps_existing-IsFree :
    (a n : ℕ) (ms : Mappings)
    → IsTiled 0 ms
    → 0 < n
    → a + n < 2 ^ 64
    → overlaps_existing a n ms ≡ false
    → IsFree a n ms
unfolding overlaps_existing add_overflows
overlaps_existing-IsFree a n ms t p b h =
    let z : (n == 0) ≡ false = grind arith in
    let o : ltb (2 ^ 64 - 1 - (n - 1)) a ≡ false = grind arith in
    let w : add_ptr a n ≡ a + n = omega arith in
    let h' : overlaps_from a (a + n) (from_floor a ms) ≡ false = grind arith in
    from_floor-IsFree 0 a n ms t
      (λ ms' lo' t' e. overlaps_from-IsFree lo' a n ms' t' (ap (overlaps_from a (a + n)) e ∙ h'))
