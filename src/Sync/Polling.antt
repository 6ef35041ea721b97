-- ===== src/Sync/Polling.antt =====
-- A wait for one of several objects that does not block, by dll/kernel32/synchapi.cpp.
use wibo.Base.{
  ℕ, suc, ◌+◌, ◌≤◌, ◌<◌, ◌≡◌, inl, inr, refl, ap, ◌∙◌, arith, List, [], ◌∷◌, ◌++◌, map, Bool, true,
  false, ◌||◌, Option, none, some, ltb, ◌==◌, if◌then◌else◌, length, Bool-cases, Option-cases,
}
use wibo.Sync.Waitables.{wait_timeout, wait_object_0}
use wibo.Sync.Blocks.{new_block, handle_signals, outcome}
use wibo.Sync.Signals.{first_signal, handle_signals-first_signal}
use wibo.Sync.Multiple.{
  Store, is_signaled, is_abandoned, resolve_all, initial_signals, consume, consume_result,
  maximum_wait_objects, wait_for_multiple_objects,
}

-- The first object that is signaled, from index `k` on.
abbrev pub first_signaled : Store → ℕ → List ℕ → Option ℕ
first_signaled store k [] = none
first_signaled store k (p ∷ ps) =
    if is_signaled (store p) then some k else first_signaled store (suc k) ps

resolve_all-some : (ps : List ℕ) → resolve_all (map some ps) ≡ some ps
unfolding resolve_all
resolve_all-some [] = refl
resolve_all-some (p ∷ ps) = let r = resolve_all-some ps in rw (resolve_all, r) refl

length-some : (ps : List ℕ) → length (map {B = Option ℕ} some ps) ≡ length ps
length-some [] = refl
length-some (p ∷ ps) = ap suc (length-some ps)

append-none : (ss : List (ℕ × Bool)) → ss ++ [] ≡ ss
append-none [] = refl
append-none (s ∷ ss) = ap (◌∷◌ s) (append-none ss)

first_signal-initial_signals :
    (store : Store) (n k : ℕ) (ps : List ℕ)
    → ((p : ℕ) → is_abandoned (store p) ≡ false)
    → k + length ps ≤ n
    → first_signal n (initial_signals store k ps) ≡ first_signaled store k ps
unfolding initial_signals
first_signal-initial_signals store n k [] a l = refl
first_signal-initial_signals store n k (p ∷ ps) a l =
    let r = first_signal-initial_signals store n (suc k) ps a (omega (arith, l)) in
    let e = a p in
    elim (Bool-cases (is_signaled (store p))) [
      | inl t ↦
          let b : ltb k n ≡ true = grind arith in
          rw (initial_signals, t, e, b) (ap some (omega arith))
      | inr f ↦ rw (initial_signals, f) r
    ]

first_signaled-< :
    (store : Store) (k : ℕ) (ps : List ℕ) (i : ℕ)
    → first_signaled store k ps ≡ some i
    → i < k + length ps
first_signaled-< store k [] i e = absurd (grind (arith, e))
first_signaled-< store k (p ∷ ps) i e = elim (Bool-cases (is_signaled (store p))) [
  | inl t ↦ ground (arith, t, e)
  | inr f ↦ omega (arith, first_signaled-< store (suc k) ps i (ground (arith, f, e)))
]

consume_result-one :
    (self : ℕ) (ps : List ℕ) (i : ℕ) (store : Store)
    → i < length ps
    → consume_result self false ps i store ≡ consume self ps i store
unfolding consume_result
consume_result-one self ps i store l =
    let b : ltb i (wait_object_0 + length ps) ≡ true = grind arith in
    rw (consume_result, b) (ap (λ j. consume self ps j store) (omega arith))

-- The call of `WaitForMultipleObjects` as the code's own `consume` of the first object that is signaled.
pub wait_for_multiple_objects-consume :
    (self : ℕ) (ps : List ℕ) (store : Store)
    → ((p : ℕ) → is_abandoned (store p) ≡ false)
    → 0 < length ps
    → length ps ≤ 64
    → wait_for_multiple_objects self false (map some ps) store [] store
      ≡ elim (first_signaled store 0 ps) [
        | none ↦ (wait_timeout, store)
        | some i ↦ (i, consume self ps i store)
      ]
unfolding wait_for_multiple_objects
wait_for_multiple_objects-consume self ps store a lo hi =
    let n = length-some ps in
    let z : ((length (map {B = Option ℕ} some ps) == 0)
          || ltb maximum_wait_objects (length (map {B = Option ℕ} some ps)))
        ≡ false =
      ground (arith, n, lo, hi) in
    let o : outcome (
          handle_signals (initial_signals store 0 ps ++ [])
            (new_block false (length (map {B = Option ℕ} some ps))))
        ≡ first_signaled store 0 ps =
      ap (λ x. outcome (handle_signals x (new_block false (length (map {B = Option ℕ} some ps)))))
        (append-none (initial_signals store 0 ps))
      ∙ ap (λ x. outcome (handle_signals (initial_signals store 0 ps) (new_block false x))) n
      ∙ handle_signals-first_signal (length ps) (initial_signals store 0 ps)
      ∙ first_signal-initial_signals store (length ps) 0 ps a (omega arith) in
    elim (Option-cases (first_signaled store 0 ps)) [
      | inl e ↦ rw (wait_for_multiple_objects, z, resolve_all-some ps, o, e) refl
      | inr (i, e) ↦
          let l : i < length ps = omega (arith, first_signaled-< store 0 ps i e) in
          rw (wait_for_multiple_objects, z, resolve_all-some ps, o, e)
            (ap (λ s. (i, s)) (consume_result-one self ps i store l))
    ]
