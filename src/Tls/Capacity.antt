-- ===== src/Tls/Capacity.antt =====
-- The capacities that src/tls.cpp chooses.
use wibo.Base.{
  ℕ, zero, suc, ◌*◌, ◌%◌, ◌^◌, ◌≤◌, ◌<◌, ◌≡◌, ◌||◌, ◌⊎◌, inl, inr, refl, arith, Bool-cases, ltb,
  leb, ◌==◌, if◌then◌else◌, false,
}
use wibo.Tls.Memory.{max_expansion_slots}

-- The loop of `chooseCapacity`, with fuel.
unfoldable pub double_up : ℕ → ℕ → ℕ → ℕ
double_up zero capacity required = capacity
double_up (suc fuel) capacity required =
    let next = capacity * 2 % 2 ^ 64 in
    let capacity' =
      if leb next capacity || ltb max_expansion_slots next then max_expansion_slots else next in
    let rest = double_up fuel capacity' required in if ltb capacity required then rest else capacity

-- The capacity doubles at least every step, until 1024.
abbrev pub doublings : ℕ
doublings = 11

-- `chooseCapacity`
unfoldable pub choose_capacity : ℕ → ℕ → ℕ
choose_capacity current required =
    let start = if current == 0 then 1 else current in
    let reached = double_up doublings start required in
    let capped = if ltb max_expansion_slots reached then max_expansion_slots else reached in
    if required == 0
    then current
    else if ltb max_expansion_slots required
    then 0
    else if ltb capped required
    then 0
    else capped

-- The loop of `ensureModuleArrayCapacityLocked`, with fuel.
unfoldable pub double_past : ℕ → ℕ → ℕ → ℕ
double_past zero target required = target
double_past (suc fuel) target required =
    let next = target * 2 % 2 ^ 64 in
    let rest = double_past fuel (if ltb next required then required else next) required in
    if ltb target required then (if leb next target then required else rest) else target

abbrev doubled : ℕ → ℕ → ℕ
doubled zero c = c
doubled (suc n) c = doubled n (c * 2)

doubled_mono : (n c : ℕ) → c ≤ doubled n c
doubled_mono zero c = omega arith
doubled_mono (suc n) c = omega (arith, doubled_mono n (c * 2))

-- With fuel for enough doublings the loop ends at a capacity that is wanted, and that is less than twice what
-- is required unless it was there before.
double_up-reaches :
    (fuel c r : ℕ)
    → r ≤ 1024
    → 1 ≤ c
    → c ≤ 1024
    → 1024 ≤ doubled fuel c
    → (r ≤ double_up fuel c r)
      × (double_up fuel c r ≤ 1024)
      × (c ≤ double_up fuel c r)
      × ((double_up fuel c r ≡ c) ⊎ (double_up fuel c r < 2 * r))
unfolding double_up
double_up-reaches zero c r hr lo hi h = (omega arith, omega arith, omega arith, inl refl)
double_up-reaches (suc fuel) c r hr lo hi h =
    let w : c * 2 % 2 ^ 64 ≡ c * 2 = omega arith in
    let n : leb (c * 2) c ≡ false = grind arith in
    elim (Bool-cases (ltb c r)) [
      | inr f ↦ rw f (grind arith, omega arith, omega arith, inl refl)
      | inl t ↦ elim (Bool-cases (ltb max_expansion_slots (c * 2))) [
        | inl o ↦
            let (a, b, d, e) =
              double_up-reaches fuel 1024 r hr (omega arith) (omega arith)
                (doubled_mono fuel 1024) in
            rw (t, w, n, o) (a, b, omega (arith, d, hi), inr (grind (arith, b, t, o)))
        | inr o ↦
            let (a, b, d, e) = double_up-reaches fuel (c * 2) r hr (omega arith) (grind arith) h in
            rw (t, w, n, o) (a, b, omega (arith, d), inr (grind (arith, e, t)))
      ]
    ]

-- What the capacity chosen for a request is: none asked for, one that fits, or one that is too large.
abbrev pub Chosen : ℕ → ℕ → ℕ → Type 0
Chosen current required capacity =
    ((required ≡ 0) × (capacity ≡ current))
    ⊎ (((0 < required)
          × (required ≤ 1024)
          × (required ≤ capacity)
          × (capacity ≤ 1024)
          × (current ≤ capacity)
          × ((capacity ≡ current) ⊎ (capacity < 2 * required)))
        ⊎ ((1024 < required) × (capacity ≡ 0)))

-- From a capacity of at most 1024, the loop ends within its fuel: an empty request leaves the capacity as it is,
-- one for at most 1024 slots gets a capacity that holds it, is at most 1024, no less than before, and less
-- than twice what is required unless it is the one before, and a larger one is refused with 0.
pub choose_capacity_lem :
    (current required : ℕ)
    → current ≤ 1024
    → Chosen current required (choose_capacity current required)
unfolding choose_capacity
choose_capacity_lem current required h = elim (Bool-cases (required == 0)) [
  | inl z ↦ rw z (inl (grind arith, refl))
  | inr z ↦ elim (Bool-cases (ltb max_expansion_slots required)) [
    | inl o ↦ rw (z, o) (inr (inr (grind arith, refl)))
    | inr o ↦
        let c : ℕ = if current == 0 then 1 else current in
        let l : (1 ≤ c) × (c ≤ 1024) × (current ≤ c) = ground arith in
        let n : 1 ≤ required = grind arith in
        let k : (c ≡ current) ⊎ (c ≡ 1) = ground arith in
        let (a, b, d, e) =
          double_up-reaches doublings c required (grind arith) l.0 l.1 (omega (arith, l)) in
        let p : ltb max_expansion_slots (double_up doublings c required) ≡ false = grind arith in
        let q : ltb (double_up doublings c required) required ≡ false = grind arith in
        rw (z, o, p, q)
          (inr (inl (grind arith, grind arith, a, b, omega (arith, l, d), omega (arith, e, k, n))))
  ]
]

-- The loop for the arrays of the modules ends at its second test, with room for what is required.
pub double_past-reaches : (c r : ℕ) → (r ≤ double_past 2 c r) × (c ≤ double_past 2 c r)
unfolding double_past
double_past-reaches c r = (ground arith, ground arith)
