-- ===== src/Handles/Compat.antt =====
-- Handle values below 0x8000, which legacy programs need: when `Handles::alloc` runs out of them.
use wibo.Base.{
  ℕ, zero, suc, ◌+◌, ◌-◌, ◌≤◌, ◌<◌, ◌^◌, ◌≡◌, refl, List, [], ◌∷◌, some, arith, ◌==◌, if◌then◌else◌,
  length, count,
}
use native.Mathlib.Decide.{dec_le}
use wibo.Handles.Index.{make_handle, make_handle-lt_compat, compat_max_index, quarantine_len}
use wibo.Handles.Table.{Table, pick_index}
use wibo.Handles.Slots.{Inv, Picked, taken, pick_index-Picked}
use wibo.Handles.Counts.{IsSound}
use wibo.Handles.World.{World, alloc}

-- f 0 + ... + f (n - 1)
unfoldable pub sum_below : ℕ → (ℕ → ℕ) → ℕ
sum_below zero f = 0
sum_below (suc n) f = sum_below n f + f n

sum_below-add : (n : ℕ) (f g : ℕ → ℕ) → sum_below n (λ i. f i + g i) ≡ sum_below n f + sum_below n g
unfolding sum_below
sum_below-add zero f g = refl
sum_below-add (suc n) f g = omega (arith, sum_below-add n f g)

sum_below-one : (n : ℕ) (f : ℕ → ℕ) → ((i : ℕ) → i < n → f i ≡ 1) → sum_below n f ≡ n
unfolding sum_below
sum_below-one zero f h = refl
sum_below-one (suc n) f h =
    omega (arith, h n (omega arith), sum_below-one n f (λ i b. h i (omega arith)))

-- An indicator sums to at most 1, and to 0 below its point.
sum_below-indicator_zero : (n x : ℕ) → n ≤ x → sum_below n (λ i. if x == i then 1 else 0) ≡ 0
unfolding sum_below
sum_below-indicator_zero zero x h = refl
sum_below-indicator_zero (suc n) x h = ground (arith, sum_below-indicator_zero n x)

sum_below-indicator : (n x : ℕ) → sum_below n (λ i. if x == i then 1 else 0) ≤ 1
unfolding sum_below
sum_below-indicator zero x = omega arith
sum_below-indicator (suc n) x =
    ground (arith, sum_below-indicator n x, sum_below-indicator_zero n x)

sum_below-zero : (n : ℕ) (f : ℕ → ℕ) → ((i : ℕ) → f i ≡ 0) → sum_below n f ≡ 0
unfolding sum_below
sum_below-zero zero f h = refl
sum_below-zero (suc n) f h = omega (arith, h n, sum_below-zero n f h)

-- A list cannot hold more indices than it has entries.
sum_below-count : (n : ℕ) (xs : List ℕ) → sum_below n (λ i. count i xs) ≤ length xs
sum_below-count n [] = omega (arith, sum_below-zero n (λ i. 0) (λ i. refl))
sum_below-count n (x ∷ xs) = omega (
  arith,
  sum_below-add n (λ i. if x == i then 1 else 0) (λ i. count i xs),
  sum_below-indicator n x,
  sum_below-count n xs,
)

-- The taken slots of the compat range.
abbrev pub compat_taken : Table → ℕ
compat_taken t = sum_below (compat_max_index + 1) (taken t)

pub compat_taken-zero : (t : Table) → t.slots ≡ [] → compat_taken t ≡ 0
compat_taken-zero t e = sum_below-zero (compat_max_index + 1) (taken t) (λ i. ground arith)

pick_index-above :
    (t : Table) (fb : List ℕ)
    → t.free_below ≡ fb
    → compat_max_index < (pick_index t).0
    → Inv t
    → (compat_max_index < t.next_index) × (t.free_below ≡ [])
unfolding pick_index
pick_index-above t [] e h v = (ground arith, e)
pick_index-above t (x ∷ fb) e h v = absurd (ground (arith, v.ranges.low x))

compat-slot :
    (t : Table)
    → compat_max_index < t.next_index
    → t.free_below ≡ []
    → Inv t
    → (i : ℕ) → i < compat_max_index + 1
    → taken t i + count i t.quarantine ≡ 1
compat-slot t n e v i b = ground (arith, v.partition i, v.ranges.high i, v.ranges.started)

compat_taken-bound :
    (t : Table)
    → compat_max_index < t.next_index
    → t.free_below ≡ []
    → Inv t
    → compat_max_index + 1 - quarantine_len ≤ compat_taken t
compat_taken-bound t n e v = omega (
  arith,
  sum_below-add (compat_max_index + 1) (taken t) (λ i. count i t.quarantine),
  sum_below-one (compat_max_index + 1) (λ i. taken t i + count i t.quarantine)
      (compat-slot t n e v),
  sum_below-count (compat_max_index + 1) t.quarantine,
  v.ranges.bounded,
)

handle-alloc :
    (p access flags : ℕ) (w : World) {h : ℕ} {w' : World}
    → alloc p access flags w ≡ some (h, w')
    → h ≡ make_handle (pick_index w.table).0
unfolding alloc
handle-alloc p access flags w q = ground arith

-- `alloc` gives out a handle below 0x8000 as long as fewer than 8127 slots of that range are in use:
-- it leaves the range only when all of its 8191 slots but those in quarantine are taken.
pub alloc-compat :
    (pins : ℕ → ℕ) (w : World) (p access flags : ℕ) {h : ℕ} {w' : World}
    → IsSound pins w
    → length w.table.slots < 2 ^ 29 - 1
    → compat_taken w.table < compat_max_index + 1 - quarantine_len
    → alloc p access flags w ≡ some (h, w')
    → h < 0x8000
alloc-compat pins w p access flags {h} v room few q =
    let idx : ℕ = (pick_index w.table).0 in
    let k : Picked w.table idx (pick_index w.table).1 =
      pick_index-Picked w.table (omega arith) v.slots in
    let small : idx < 2 ^ 29 - 1 = omega (arith, k.in_range, k.grows) in
    elim (dec_le idx compat_max_index) [
      | yes low ↦ rw (handle-alloc p access flags w q) (make_handle-lt_compat idx low)
      | no high ↦
          let (n, e) = pick_index-above w.table w.table.free_below refl (omega arith) v.slots in
          absurd (omega (arith, compat_taken-bound w.table n e v.slots))
    ]
