-- ===== src/Sync/Collecting.antt =====
-- What the signals that reach a wait block of dll/kernel32/synchapi.cpp amount to where all objects are asked for.
use wibo.Base.{
  ℕ, zero, suc, ◌<◌, ◌≡◌, inl, inr, refl, sym, ap, ◌∙◌, subst, arith, List, [], ◌∷◌, Bool, true,
  false, ◌||◌, none, some, ltb, ◌==◌, if◌then◌else◌, length, get_elem?, set, get_elem?-set,
  get_elem?_out, length-set, same_some, Bool-cases,
}
use wibo.Sync.Blocks.{Block, all_true, new_block, satisfy, handle_signal, handle_signals, outcome}
use wibo.Sync.Signals.{Signals, get_elem?-all_false, length-all_false, handle_signal-completed}

abbrev pub all_below : ℕ → (ℕ → Bool) → Bool
all_below zero f = true
all_below (suc n) f = if f 0 then all_below n (λ i. f (suc i)) else false

all_below-same :
    (n : ℕ) (f g : ℕ → Bool) → ((i : ℕ) → i < n → f i ≡ g i) → all_below n f ≡ all_below n g
all_below-same zero f g h = refl
all_below-same (suc n) f g h =
    let r = all_below-same n (λ i. f (suc i)) (λ i. g (suc i)) (λ i l. h (suc i) (omega arith)) in
    let z = h 0 (omega arith) in rw (z, r) refl

all_below-at : (n : ℕ) (f : ℕ → Bool) (i : ℕ) → all_below n f ≡ true → i < n → f i ≡ true
all_below-at zero f i h l = absurd (omega arith)
all_below-at (suc n) f zero h l = elim (Bool-cases (f 0)) [
  | inl t ↦ t
  | inr e ↦ absurd (grind (arith, e, h))
]
all_below-at (suc n) f (suc i) h l =
    all_below-at n (λ j. f (suc j)) i (ground (arith, h)) (omega arith)

all_true-all_below :
    (bs : List Bool) (f : ℕ → Bool)
    → ((i : ℕ) → i < length bs → get_elem? bs i ≡ some (f i))
    → all_true bs ≡ all_below (length bs) f
all_true-all_below [] f h = refl
all_true-all_below (b ∷ bs) f h =
    let r = all_true-all_below bs (λ i. f (suc i)) (λ i l. h (suc i) (omega arith)) in
    let z : b ≡ f 0 = same_some refl (h 0 (omega arith)) in rw (z, r) refl

-- A block that waits for all, with the objects satisfied that `f` says.
record IsCollecting (n : ℕ) (f : ℕ → Bool) (b : Block) : Type 0 where
  every : b.wait_all ≡ true
  size : length b.satisfied ≡ n
  marks : (i : ℕ) → i < n → get_elem? b.satisfied i ≡ some (f i)
  done : b.completed ≡ all_below n f
  zero_result : b.completed ≡ true → b.result ≡ 0

abbrev with_index : (ℕ → Bool) → ℕ → ℕ → Bool
with_index f j i = f i || (i == j)

-- Nothing new.
IsCollecting-same :
    (n : ℕ) (f g : ℕ → Bool) (b : Block)
    → ((i : ℕ) → i < n → f i ≡ g i)
    → IsCollecting n f b
    → IsCollecting n g b
IsCollecting-same n f g b h c = record {
  every = c.every;
  size = c.size;
  marks = λ i l. c.marks i l ∙ ap some (h i l);
  done = c.done ∙ all_below-same n f g h;
  zero_result = c.zero_result;
}

-- The object at `j` becomes satisfied.
satisfy-IsCollecting :
    (n j : ℕ) (f : ℕ → Bool) (b : Block)
    → j < n
    → IsCollecting n f b
    → b.completed ≡ false
    → IsCollecting n
        (with_index f j)
        (satisfy j false (record b { satisfied = set b.satisfied j true }))
unfolding satisfy
satisfy-IsCollecting n j f b l c k =
    let sat = set b.satisfied j true in
    let size : length sat ≡ n = length-set b.satisfied j true ∙ c.size in
    let marks : (i : ℕ) → i < n → get_elem? sat i ≡ some (with_index f j i) = λ i h.
      let e = get_elem?-set b.satisfied j i true (omega (arith, l, c.size)) in
      let g = c.marks i h in ground (arith, e, g) in
    let d : all_true sat ≡ all_below n (with_index f j) =
      subst (λ z. all_true sat ≡ all_below z (with_index f j)) size
        (all_true-all_below sat (with_index f j) (λ i h. marks i (omega (arith, h, size)))) in
    elim (Bool-cases (all_true sat)) [
      | inl t ↦
          rw (satisfy, c.every, t)
            (record {
              every = refl;
              size = size;
              marks = marks;
              done = sym t ∙ d;
              zero_result = λ _. refl;
            })
      | inr t ↦
          rw (satisfy, c.every, t)
            (record {
              every = refl;
              size = size;
              marks = marks;
              done = k ∙ sym t ∙ d;
              zero_result = λ h. absurd (grind (arith, h, k));
            })
    ]

handle_signal-IsCollecting :
    (n j : ℕ) (f : ℕ → Bool) (b : Block)
    → IsCollecting n f b
    → IsCollecting n (with_index f j) (handle_signal j false b)
unfolding handle_signal
handle_signal-IsCollecting n j f b c = elim (Bool-cases (ltb j n)) [
  | inr x ↦
      let e : get_elem? b.satisfied j ≡ none =
        get_elem?_out b.satisfied j (grind (arith, x, c.size)) in
      let q : handle_signal j false b ≡ b = rw (handle_signal, e) refl in
      subst (IsCollecting n (with_index f j)) (sym q)
        (IsCollecting-same n f (with_index f j) b (λ i l. ground (arith, x)) c)
  | inl t ↦
      let e : get_elem? b.satisfied j ≡ some (f j) = c.marks j (grind arith) in
      elim (Bool-cases (f j)) [
        | inl m ↦
            let q : handle_signal j false b ≡ b = rw (handle_signal, e, m) refl in
            subst (IsCollecting n (with_index f j)) (sym q)
              (IsCollecting-same n f (with_index f j) b (same_marked m) c)
        | inr m ↦ elim (Bool-cases b.completed) [
          | inl k ↦
              subst (IsCollecting n (with_index f j)) (sym (handle_signal-completed j false b k)) (
                IsCollecting-same n f (with_index f j) b
                  (λ i l. let a = all_below-at n f i (sym c.done ∙ k) l in rw a refl) c)
          | inr k ↦
              let q : handle_signal j false b
                  ≡ satisfy j false (record b { satisfied = set b.satisfied j true }) =
                ground (arith, e, m, k) in
              subst (IsCollecting n (with_index f j)) (sym q)
                (satisfy-IsCollecting n j f b (grind arith) c k)
        ]
      ]
]
  where
    same_marked : f j ≡ true → (i : ℕ) → i < n → f i ≡ with_index f j i
    same_marked m i l = elim (Bool-cases (i == j)) [
      | inl q ↦ let z : i ≡ j = grind arith in rw (z, m) refl
      | inr q ↦ ground (arith, q)
    ]

-- The signals of these objects, none of them abandoned.
abbrev pub plain : List ℕ → Signals
plain [] = []
plain (j ∷ js) = (j, false) ∷ plain js

abbrev with_all : (ℕ → Bool) → List ℕ → ℕ → Bool
with_all f [] = f
with_all f (j ∷ js) = with_all (with_index f j) js

handle_signals-IsCollecting :
    (n : ℕ) (js : List ℕ) (f : ℕ → Bool) (b : Block)
    → IsCollecting n f b
    → IsCollecting n (with_all f js) (handle_signals (plain js) b)
unfolding handle_signals
handle_signals-IsCollecting n [] f b c = c
handle_signals-IsCollecting n (j ∷ js) f b c =
    handle_signals-IsCollecting n js (with_index f j) (handle_signal j false b)
      (handle_signal-IsCollecting n j f b c)

-- The object is among those that signal.
abbrev pub is_among : List ℕ → ℕ → Bool
is_among [] i = false
is_among (j ∷ js) i = if i == j then true else is_among js i

with_all-is_among : (js : List ℕ) (f : ℕ → Bool) (i : ℕ) → with_all f js i ≡ (f i || is_among js i)
with_all-is_among [] f i = ground arith
with_all-is_among (j ∷ js) f i = with_all-is_among js (with_index f j) i ∙ ground arith

new_block-IsCollecting : (n : ℕ) → 0 < n → IsCollecting n (λ i. false) (new_block true n)
unfolding new_block
new_block-IsCollecting zero l = absurd (omega arith)
new_block-IsCollecting (suc n) l = record {
  every = refl;
  size = length-all_false (suc n);
  marks = λ i h. get_elem?-all_false (suc n) i ∙ ground arith;
  done = refl;
  zero_result = λ h. absurd (grind (arith, h));
}

outcome-all :
    (b : Block) (x : Bool)
    → b.completed ≡ x
    → (b.completed ≡ true → b.result ≡ 0)
    → outcome b ≡ (if x then some 0 else none)
unfolding outcome
outcome-all b x e z = ground (arith, e, z)

-- Where all objects are asked for, a block of at least one object is completed, with the result 0, exactly when
-- each object has signaled, in whatever order and however often, none of them abandoned.
pub handle_signals-all_below :
    (n : ℕ) (js : List ℕ)
    → 0 < n
    → outcome (handle_signals (plain js) (new_block true n))
      ≡ (if all_below n (is_among js) then some 0 else none)
handle_signals-all_below n js l =
    let c =
      handle_signals-IsCollecting n js (λ i. false) (new_block true n)
        (new_block-IsCollecting n l) in
    let e =
      c.done
      ∙ all_below-same n (with_all (λ i. false) js) (is_among js)
          (λ i _. with_all-is_among js (λ k. false) i) in
    outcome-all (handle_signals (plain js) (new_block true n)) (all_below n (is_among js)) e
      c.zero_result
