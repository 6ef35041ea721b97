-- ===== src/Sync/SectionSafety.antt =====
-- Mutual exclusion by the critical sections, over every interleaving.
use wibo.Base.{
  ℕ, zero, suc, ◌+◌, ◌-◌, ◌^◌, ◌≤◌, ◌<◌, ◌≡◌, ◌⊎◌, inl, inr, refl, sym, ap, subst, arith, List, [],
  ◌∷◌, ◌++◌, some, ltb, ◌==◌, if◌then◌else◌, get_elem?, count,
}
use wibo.Sync.Threads.{sum_by, sum_by-≤, sum_by-zero, sum_by-insert, sum_by_mono}
use wibo.Sync.Section.{
  Section, Place, Thread, Scene, Begins, Step, Reach, act, entries, total_entries, outside,
}
use wibo.Sync.SectionSums.{holds, wrong, same_id, Counts, Quiet, Acts, act-Acts}

-- What holds of every state that is reached.
record IsOrderly (s : Scene) : Type 0 where
  counts : Counts s.section (sum_by entries s.threads) (sum_by holds s.threads)
  right : sum_by (wrong s.section.owning_thread s.section.recursion_count) s.threads ≡ 0
  few : total_entries s < 2 ^ 31
  one_each : (i : ℕ) → sum_by (same_id i) s.threads ≤ 1
  named : sum_by (same_id 0) s.threads ≡ 0

abbrev moved : ℕ → ℕ → Thread → ℕ
moved o o' t = if o' == o then 0 else same_id o' t

-- A thread without the right does not see another recursion count, nor another owner but itself.
wrong-≤ : (o r o' r' : ℕ) (t : Thread) → wrong o' r' t ≤ wrong o r t + (holds t + moved o o' t)
wrong-≤ o r o' r' t = ground arith

sum_by-moved :
    (o o' : ℕ) (us : List Thread)
    → (o' ≡ o) ⊎ (sum_by (same_id o') us ≡ 0)
    → sum_by (moved o o') us ≡ 0
sum_by-moved o o' [] h = refl
sum_by-moved o o' (u ∷ us) (inl e) = let r = sum_by-moved o o' us (inl e) in ground (arith, r, e)
sum_by-moved o o' (u ∷ us) (inr z) =
    let r = sum_by-moved o o' us (inr (omega (arith, z))) in ground (arith, r, z)

Quiet-right :
    (c c' : Section) (t : Thread) (us : List Thread)
    → Quiet t c c' (sum_by holds us)
    → sum_by (same_id t.id) us ≡ 0
    → sum_by (same_id 0) us ≡ 0
    → sum_by (wrong c.owning_thread c.recursion_count) us ≡ 0
    → sum_by (wrong c'.owning_thread c'.recursion_count) us ≡ 0
Quiet-right c c' t us (inl (e, f)) h z w =
    subst (λ x. sum_by (wrong x c'.recursion_count) us ≡ 0) (sym e)
      (subst (λ x. sum_by (wrong c.owning_thread x) us ≡ 0) (sym f) w)
Quiet-right c c' t us (inr (none_holds, cases)) h z w =
    let o = c.owning_thread in
    let o' = c'.owning_thread in
    let apart : (o' ≡ o) ⊎ (sum_by (same_id o') us ≡ 0) = elim cases [
      | inl e ↦ inl e
      | inr (inl e) ↦ inr (subst (λ x. sum_by (same_id x) us ≡ 0) (sym e) h)
      | inr (inr e) ↦ inr (subst (λ x. sum_by (same_id x) us ≡ 0) (sym e) z)
    ] in
    let m = sum_by-moved o o' us apart in
    let b =
      sum_by-≤ (wrong o' c'.recursion_count) (wrong o c.recursion_count) holds (moved o o')
        (wrong-≤ o c.recursion_count o' c'.recursion_count) us in
    omega (arith, b, m, none_holds, w)

-- An operation of one thread among others that have `l` entries, `h` of them with the right.
abbrev Allowed : Section → Section → Thread → Thread → ℕ → ℕ → Type 0
Allowed c c' t t' l h =
    0 < t.id
    → entries t + l < 2 ^ 31
    → entries t' + l < 2 ^ 31
    → wrong c.owning_thread c.recursion_count t ≡ 0
    → Counts c (entries t + l) (holds t + h)
    → Acts t c l h (t', c')

-- One thread's operation, seen from the whole.
replaced-IsOrderly :
    (c c' : Section) (before after : List Thread) (t t' : Thread)
    → Allowed c c' t t' (sum_by entries (before ++ after)) (sum_by holds (before ++ after))
    → sum_by entries (before ++ (t' ∷ after)) < 2 ^ 31
    → IsOrderly (record { section = c; threads = before ++ (t ∷ after) })
    → IsOrderly (record { section = c'; threads = before ++ (t' ∷ after) })
replaced-IsOrderly c c' before after t t' acts few s =
    let us = before ++ after in
    let l = sum_by entries us in
    let h = sum_by holds us in
    let at = λ (f : Thread → ℕ). sum_by-insert f before t after in
    let at' = λ (f : Thread → ℕ). sum_by-insert f before t' after in
    let counts : Counts c (entries t + l) (holds t + h) =
      subst (λ x. Counts c x (holds t + h)) (at entries)
        (subst (λ x. Counts c (sum_by entries (before ++ (t ∷ after))) x) (at holds) s.counts) in
    let own : same_id t.id t ≡ 1 = grind arith in
    let others : sum_by (same_id t.id) us ≡ 0 =
      omega (arith, own, at (same_id t.id), s.one_each t.id) in
    let z : sum_by (same_id 0) us ≡ 0 = omega (arith, at (same_id 0), s.named) in
    let named : same_id 0 t ≡ 0 = omega (arith, at (same_id 0), s.named) in
    let id : 0 < t.id = ground (arith, named) in
    let w = at (wrong c.owning_thread c.recursion_count) in
    let (same, right, counts', quiet) =
      acts id (omega (arith, at entries, s.few)) (omega (arith, at' entries, few))
        (omega (arith, w, s.right)) counts in
    let rest = Quiet-right c c' t us quiet others z (omega (arith, w, s.right)) in
    record {
      counts =
          subst (λ x. Counts c' x (sum_by holds (before ++ (t' ∷ after)))) (sym (at' entries))
            (subst (λ x. Counts c' (entries t' + l) x) (sym (at' holds)) counts');
      right = omega (arith, at' (wrong c'.owning_thread c'.recursion_count), right, rest);
      few = few;
      one_each = λ i. omega (
        arith,
        at (same_id i),
        at' (same_id i),
        ap {B = ℕ} (λ x. if x == i then 1 else 0) same,
        s.one_each i,
      );
      named = omega (
        arith,
        at (same_id 0),
        at' (same_id 0),
        ap {B = ℕ} (λ x. if x == 0 then 1 else 0) same,
        s.named,
      );
    }

Begins-Allowed :
    (spins id depth : ℕ) (q : Place) (c : Section) (l h : ℕ)
    → Begins spins depth q
    → Allowed c c
        (record { id = id; depth = depth; place = Place.resting })
        (record { id = id; depth = depth; place = q })
        l
        h
Begins-Allowed zero id d q c l h (Begins.enters _) z few few' w (k, r) = ground (arith, w, k, r)
Begins-Allowed (suc n) id d q c l h (Begins.enters _) z few few' w (k, r) = ground (arith, w, k, r)
Begins-Allowed spins id d q c l h (Begins.tries _) z few few' w (k, r) = ground (arith, w, k, r)
Begins-Allowed spins id (suc d) q c l h (Begins.leaves _) z few few' w (k, r) =
    ground (arith, w, k, r)

Step-IsOrderly :
    {spins : ℕ} {s t : Scene}
    → Step spins s t
    → total_entries t < 2 ^ 31
    → IsOrderly s
    → IsOrderly t
Step-IsOrderly {spins} (Step.begins c before after id depth q b) few s =
    let l = sum_by entries (before ++ after) in
    let h = sum_by holds (before ++ after) in
    replaced-IsOrderly c c before after (record { id = id; depth = depth; place = Place.resting })
      (record { id = id; depth = depth; place = q }) (Begins-Allowed spins id depth q c l h b) few s
Step-IsOrderly (Step.goes_on c before after t) few s =
    let l = sum_by entries (before ++ after) in
    let h = sum_by holds (before ++ after) in
    replaced-IsOrderly c (act t t.place c).1 before after t (act t t.place c).0
      (λ z a b w k. act-Acts t.id t.depth t.place c l h z a b w k) few s

outside-IsOrderly :
    (ids : List ℕ)
    → (sum_by entries (outside ids) ≡ 0)
      × (sum_by holds (outside ids) ≡ 0)
      × ((i : ℕ) → sum_by (same_id i) (outside ids) ≡ count i ids)
      × (sum_by (wrong 0 0) (outside ids) ≡ count 0 ids)
outside-IsOrderly [] = (refl, refl, λ i. refl, refl)
outside-IsOrderly (i ∷ ids) =
    let (a, b, c, d) = outside-IsOrderly ids in
    (omega (arith, a), omega (arith, b), λ j. ground (arith, c j), ground (arith, d))

Reach-IsOrderly :
    {spins : ℕ} {ids : List ℕ} {s : Scene}
    → ((i : ℕ) → count i ids ≤ 1)
    → count 0 ids ≡ 0
    → Reach spins ids s
    → IsOrderly s
Reach-IsOrderly {spins} {ids} one z Reach.start =
    let (a, b, c, d) = outside-IsOrderly ids in
    record {
      counts = (ground (arith, a), ground (arith, a, b));
      right = omega (arith, d, z);
      few = omega (arith, a);
      one_each = λ i. omega (arith, c i, one i);
      named = omega (arith, c 0, z);
    }
Reach-IsOrderly one z (Reach.later r t few) = Step-IsOrderly t few (Reach-IsOrderly one z r)

-- The thread has entered the section.
abbrev pub is_inside : Thread → ℕ
is_inside t = if ltb 0 t.depth then 1 else 0

-- What a critical section guards.
pub record IsGuarded (s : Scene) : Type 0 where
  pub exclusive : sum_by is_inside s.threads ≤ 1
  pub recorded :
      (i : ℕ) (t : Thread)
      → get_elem? s.threads i ≡ some t
      → 0 < t.depth
      → (s.section.owning_thread ≡ t.id) × (s.section.recursion_count ≡ t.depth)
  pub next : 1 ≤ sum_by entries s.threads → sum_by holds s.threads + s.section.tickets ≡ 1
  pub free :
      sum_by entries s.threads ≡ 0 → (s.section.lock_count ≡ 2 ^ 32 - 1) × (s.section.tickets ≡ 0)

-- After any interleaving of the operations of threads with nonzero ids of their own on a fresh section, while
-- there are fewer than 2 ^ 31 entries, at most one thread is inside it, and the section names it and how deep
-- it is; while a thread is counted in, be it inside or waiting, there is either one ticket or one thread that
-- has the right to the section; and when no thread is counted in, the section is free.
pub Reach-IsGuarded :
    {spins : ℕ} {ids : List ℕ} {s : Scene}
    → ((i : ℕ) → count i ids ≤ 1)
    → count 0 ids ≡ 0
    → Reach spins ids s
    → IsGuarded s
Reach-IsGuarded {s = s} one z r =
    let o = Reach-IsOrderly one z r in
    let inside = sum_by_mono is_inside holds (λ t. ground arith) s.threads in
    let (count, token) = o.counts in
    record {
      exclusive = omega (arith, inside, token);
      recorded = λ i t e d.
          let w =
            sum_by-zero (wrong s.section.owning_thread s.section.recursion_count) s.threads i t
              o.right e in
          ground (arith, w, d);
      next = λ w. ground (arith, w, token);
      free = λ e. ground (arith, e, count, token);
    }
