-- ===== src/Sync/OnceHistory.antt =====
-- One-time initialisation of dll/kernel32/synchapi.cpp, over every interleaving.
use wibo.Base.{
  ℕ, zero, suc, ◌+◌, ◌≤◌, ◌≡◌, inl, refl, sym, subst, arith, List, ◌∷◌, ◌++◌, some, get_elem?,
}
use wibo.Sync.Threads.{sum_by, sum_by-insert, sum_by_mono, sum_by-zero}
use wibo.Sync.Once.{Once, Stage, Begins, Race, Step, Reach, operate, idle_stages}
use wibo.Sync.OnceSafety.{
  initializer, wrong, Shape, Agree, Sole, Moves, operate-keeps, wrong-Moves, operate-Agree,
}

-- What holds of every state that is reached.
record IsSettled (s : Race) : Type 0 where
  shape : Shape s.once.ptr
  sole : Sole s.once.ptr (sum_by initializer s.threads)
  right : sum_by (wrong s.once.ptr) s.threads ≡ 0
  agree : Agree s.once

Begins-same :
    {p q : Stage} (v : ℕ) → Begins p q → (initializer q ≡ initializer p) × (wrong v q ≤ wrong v p)
Begins-same v (Begins.begins b) = (refl, omega arith)
Begins-same v Begins.checks = (refl, omega arith)
Begins-same v (Begins.again b x) = (refl, omega arith)
Begins-same v (Begins.succeeds b x e) = (refl, ground (arith, e))
Begins-same v Begins.gives_up = (refl, ground arith)

-- One thread's operation, seen from the whole.
replaced-IsSettled :
    (o o' : Once) (before after : List Stage) (p q : Stage)
    → (wrong o.ptr p ≡ 0
        → Sole o.ptr (initializer p + sum_by initializer (before ++ after))
        → (wrong o'.ptr q ≡ 0)
          × Shape o'.ptr
          × Sole o'.ptr (initializer q + sum_by initializer (before ++ after))
          × Moves o.ptr o'.ptr
          × Agree o')
    → IsSettled (record { once = o; threads = before ++ (p ∷ after) })
    → IsSettled (record { once = o'; threads = before ++ (q ∷ after) })
replaced-IsSettled o o' before after p q acts s =
    let us = before ++ after in
    let w = sum_by-insert (wrong o.ptr) before p after in
    let (wq, shape, sole, moves, agree) =
      acts (omega (arith, w, s.right))
        (subst (Sole o.ptr) (sum_by-insert initializer before p after) s.sole) in
    let rest = sum_by_mono (wrong o'.ptr) (wrong o.ptr) (wrong-Moves o.ptr o'.ptr moves) us in
    record {
      shape = shape;
      sole = subst (Sole o'.ptr) (sym (sum_by-insert initializer before q after)) sole;
      right = omega (arith, sum_by-insert (wrong o'.ptr) before q after, wq, rest, w, s.right);
      agree = agree;
    }

Step-IsSettled : {s t : Race} → Step s t → IsSettled s → IsSettled t
Step-IsSettled (Step.calls o before after p q b) s =
    let (i, l) = Begins-same o.ptr b in
    let us = before ++ after in
    replaced-IsSettled o o before after p q
      (λ w e. (
        omega (arith, l, w),
        s.shape,
        subst (λ z. Sole o.ptr (z + sum_by initializer us)) (sym i) e,
        inl refl,
        s.agree,
      ))
      s
Step-IsSettled (Step.goes_on o before after p) s =
    replaced-IsSettled o (operate p o).1 before after p (operate p o).0
      (λ w e.
        let (a, b, c, d) =
          operate-keeps p o (sum_by initializer (before ++ after)) s.shape w e s.agree in
        (a, b, c, d, operate-Agree p o w d s.agree))
      s

idle_stages-same :
    (n : ℕ) → (sum_by initializer (idle_stages n) ≡ 0) × (sum_by (wrong 0) (idle_stages n) ≡ 0)
idle_stages-same zero = (refl, refl)
idle_stages-same (suc n) = let (a, b) = idle_stages-same n in (omega (arith, a), omega (arith, b))

Reach-IsSettled : {n : ℕ} {s : Race} → Reach n s → IsSettled s
Reach-IsSettled {n} Reach.start =
    let (a, b) = idle_stages-same n in
    record { shape = inl refl; sole = inl a; right = b; agree = λ k e. absurd (grind (arith, e)) }
Reach-IsSettled (Reach.later r t) = Step-IsSettled t (Reach-IsSettled r)

-- What one-time initialisation promises.
abbrev pub IsOnce : Race → Type 0
IsOnce s =
    (sum_by initializer s.threads ≤ 1)
    × (sum_by initializer s.threads ≡ 1 → s.once.ptr ≡ 1)
    × ((i context : ℕ)
        → get_elem? s.threads i ≡ some (Stage.is_initialized context)
        → s.once.ptr ≡ context + 2)

-- After any interleaving of the operations of threads that begin and complete an initialisation, and of
-- attempts that fail, at most one thread is to initialise synchronously, and only while the word says so;
-- and every thread that was told that the initialisation is done got the context that the word has.
pub Reach-IsOnce : {n : ℕ} {s : Race} → Reach n s → IsOnce s
Reach-IsOnce {s = s} r =
    let c = Reach-IsSettled r in
    let sole = c.sole in
    (
      ground (arith, sole),
      λ e. ground (arith, sole, e),
      λ i x e.
          let w = sum_by-zero (wrong s.once.ptr) s.threads i (Stage.is_initialized x) c.right e in
          ground (arith, w),
    )
