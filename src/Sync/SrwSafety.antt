-- ===== src/Sync/SrwSafety.antt =====
-- Mutual exclusion by the slim reader and writer locks, over every interleaving.
use wibo.Base.{
  ℕ, zero, suc, ◌+◌, ◌-◌, ◌*◌, ◌^◌, ◌≤◌, ◌<◌, ◌≡◌, ◌⊎◌, inl, refl, sym, ap, subst, arith, List, ◌∷◌,
  ◌++◌, Bool, if◌then◌else◌, length, length-append,
}
use wibo.Sync.Threads.{sum_by, sum_by-append, sum_by-length}
use wibo.Sync.Srw.{Position, Begins, proceed, is_exclusive, Srw, Step, Reach, idle_threads}

-- The thread holds the lock shared.
abbrev pub reads : Position → ℕ
reads Position.reading = 1
reads Position.release_shared = 1
reads p = 0

-- The thread holds the lock alone.
abbrev pub writes : Position → ℕ
writes Position.writing = 1
writes Position.release_exclusive = 1
writes p = 0

abbrev odd : ℕ → ℕ
odd v = if is_exclusive v then 1 else 0

-- The thread would add a reader to a word with the exclusive bit.
abbrev rash : Position → ℕ
rash (Position.swap_shared current) = odd current
rash (Position.try_shared current) = odd current
rash p = 0

-- The word says who holds the lock.
abbrev pub Encodes : ℕ → ℕ → ℕ → Type 0
Encodes v r w = ((w ≡ 0) × (v ≡ 2 * r)) ⊎ ((w ≡ 1) × (r ≡ 0) × (v ≡ 1))

-- What one operation of a thread keeps, where the others hold it `r` times shared and `w` times alone.
abbrev Keeps : ℕ → ℕ → ℕ → Position → Position × ℕ → Type 0
Keeps r w b p (q, v') = (rash q + b ≡ 0) × Encodes v' (reads q + r) (writes q + w)

Begins-same :
    {p q : Position} → Begins p q → (reads q ≡ reads p) × (writes q ≡ writes p) × (rash q ≡ rash p)
Begins-same Begins.acquire_shared = (refl, refl, refl)
Begins-same Begins.acquire_exclusive = (refl, refl, refl)
Begins-same Begins.try_acquire_shared = (refl, refl, refl)
Begins-same Begins.try_acquire_exclusive = (refl, refl, refl)
Begins-same Begins.releases_shared = (refl, refl, refl)
Begins-same Begins.releases_exclusive = (refl, refl, refl)

proceed-Keeps :
    (spurious : Bool) (p : Position) (v r w b : ℕ)
    → r < 2 ^ 31 - 1
    → rash p + b ≡ 0
    → Encodes v (reads p + r) (writes p + w)
    → Keeps r w b p (proceed spurious p v)
unfolding proceed
proceed-Keeps s Position.idle v r w b n h e = (h, e)
proceed-Keeps s Position.reading v r w b n h e = (h, e)
proceed-Keeps s Position.writing v r w b n h e = (h, e)
proceed-Keeps s Position.load_shared v r w b n h e = ground (arith, n, h, e)
proceed-Keeps s (Position.wait_shared o) v r w b n h e = ground (arith, n, h, e)
proceed-Keeps s (Position.swap_shared c) v r w b n h e = ground (arith, n, h, e)
proceed-Keeps s Position.swap_exclusive v r w b n h e = ground (arith, n, h, e)
proceed-Keeps s (Position.wait_exclusive x) v r w b n h e = ground (arith, n, h, e)
proceed-Keeps s Position.try_exclusive v r w b n h e = ground (arith, n, h, e)
proceed-Keeps s Position.try_load v r w b n h e = ground (arith, n, h, e)
proceed-Keeps s (Position.try_shared c) v r w b n h e = ground (arith, n, h, e)
proceed-Keeps s Position.release_shared v r w b n h e = ground (arith, n, h, e)
proceed-Keeps s Position.release_exclusive v r w b n h e = ground (arith, n, h, e)

-- What holds of every state that is reached.
record IsSafe (n : ℕ) (s : Srw) : Type 0 where
  few : length s.threads ≡ n
  careful : sum_by rash s.threads ≡ 0
  encodes : Encodes s.value (sum_by reads s.threads) (sum_by writes s.threads)

reads-≤ : (p : Position) → reads p ≤ 1
reads-≤ Position.idle = omega arith
reads-≤ Position.reading = omega arith
reads-≤ Position.writing = omega arith
reads-≤ Position.load_shared = omega arith
reads-≤ (Position.wait_shared _) = omega arith
reads-≤ (Position.swap_shared _) = omega arith
reads-≤ Position.swap_exclusive = omega arith
reads-≤ (Position.wait_exclusive _) = omega arith
reads-≤ Position.try_exclusive = omega arith
reads-≤ Position.try_load = omega arith
reads-≤ (Position.try_shared _) = omega arith
reads-≤ Position.release_shared = omega arith
reads-≤ Position.release_exclusive = omega arith

idle_threads-IsSafe :
    (n : ℕ)
    → (length (idle_threads n) ≡ n)
      × (sum_by rash (idle_threads n) ≡ 0)
      × (sum_by reads (idle_threads n) ≡ 0)
      × (sum_by writes (idle_threads n) ≡ 0)
idle_threads-IsSafe zero = (refl, refl, refl, refl)
idle_threads-IsSafe (suc n) =
    let (a, b, c, d) = idle_threads-IsSafe n in
    (ap suc a, omega (arith, b), omega (arith, c), omega (arith, d))

-- One thread's change is a change of the sums.
replaced-IsSafe :
    (n v v' : ℕ) (before after : List Position) (p q : Position)
    → n < 2 ^ 31
    → ((r w b : ℕ)
        → r < 2 ^ 31 - 1
        → rash p + b ≡ 0
        → Encodes v (reads p + r) (writes p + w)
        → Keeps r w b p (q, v'))
    → IsSafe n (record { value = v; threads = before ++ (p ∷ after) })
    → IsSafe n (record { value = v'; threads = before ++ (q ∷ after) })
replaced-IsSafe n v v' before after p q few keep s =
    let total = λ (f : Position → ℕ) (x : Position). sum_by-append f before x after in
    let others = λ (f : Position → ℕ). sum_by f before + sum_by f after in
    let r = others reads in
    let w = others writes in
    let b = others rash in
    let lb = sum_by-length reads reads-≤ before in
    let la = sum_by-length reads reads-≤ after in
    let lp = length-append before (p ∷ after) in
    let lq = length-append before (q ∷ after) in
    let (c, e) =
      keep r w b (omega (arith, lb, la, lp, s.few, few)) (omega (arith, total rash p, s.careful)) (
        subst (λ z. Encodes v z (writes p + w)) (total reads p)
          (subst (λ z. Encodes v (sum_by reads (before ++ (p ∷ after))) z) (total writes p)
            s.encodes)) in
    record {
      few = omega (arith, lp, lq, s.few);
      careful = omega (arith, total rash q, c);
      encodes =
          subst (λ z. Encodes v' z (sum_by writes (before ++ (q ∷ after)))) (sym (total reads q))
            (subst (λ z. Encodes v' (reads q + r) z) (sym (total writes q)) e);
    }

Step-IsSafe : (n : ℕ) {s t : Srw} → n < 2 ^ 31 → Step s t → IsSafe n s → IsSafe n t
Step-IsSafe n few (Step.begins v before after p q g) safe =
    let (a, b, c) = Begins-same g in
    replaced-IsSafe n v v before after p q few
      (λ r w k l h e. (
        omega (arith, h, c),
        subst (λ z. Encodes v z (writes q + w)) (ap (λ z. z + r) (sym a))
            (subst (λ z. Encodes v (reads p + r) z) (ap (λ z. z + w) (sym b)) e),
      ))
      safe
Step-IsSafe n few (Step.goes_on spurious v before after p) safe =
    replaced-IsSafe n v (proceed spurious p v).1 before after p (proceed spurious p v).0 few
      (λ r w k l h e. proceed-Keeps spurious p v r w k l h e) safe

Reach-IsSafe : (n : ℕ) {s : Srw} → n < 2 ^ 31 → Reach n s → IsSafe n s
Reach-IsSafe n few Reach.start =
    let (a, b, c, d) = idle_threads-IsSafe n in
    record { few = a; careful = b; encodes = inl (d, omega (arith, c)) }
Reach-IsSafe n few (Reach.later r t) = Step-IsSafe n few t (Reach-IsSafe n few r)

-- With fewer than 2 ^ 31 threads, after any interleaving of their operations on a lock that begins free, at
-- most one thread holds it alone, and then none shares it; and the word is 1 or twice the number of readers.
pub Reach-Encodes :
    (n : ℕ) {s : Srw}
    → n < 2 ^ 31
    → Reach n s
    → Encodes s.value (sum_by reads s.threads) (sum_by writes s.threads)
Reach-Encodes n few r = (Reach-IsSafe n few r).encodes
