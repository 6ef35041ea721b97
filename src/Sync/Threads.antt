-- ===== src/Sync/Threads.antt =====
-- Sums over the threads of a process, for dll/kernel32/synchapi.cpp.
use wibo.Base.{
  ℕ, zero, suc, ◌+◌, ◌≤◌, ◌≡◌, refl, subst, List, [], ◌∷◌, ◌++◌, some, arith, length, get_elem?,
  same_some,
}

abbrev pub sum_by : {A : Type 0} → (A → ℕ) → List A → ℕ
sum_by f [] = 0
sum_by f (x ∷ xs) = f x + sum_by f xs

pub sum_by-append :
    {A : Type 0} (f : A → ℕ) (xs : List A) (x : A) (ys : List A)
    → sum_by f (xs ++ (x ∷ ys)) ≡ f x + (sum_by f xs + sum_by f ys)
sum_by-append f [] x ys = omega arith
sum_by-append f (z ∷ xs) x ys = omega (arith, sum_by-append f xs x ys)

-- Each thread counts for one at most.
pub sum_by-length :
    {A : Type 0} (f : A → ℕ) → ((x : A) → f x ≤ 1) → (xs : List A) → sum_by f xs ≤ length xs
sum_by-length f h [] = omega arith
sum_by-length f h (x ∷ xs) = omega (arith, h x, sum_by-length f h xs)

pub sum_by-≤ :
    {A : Type 0} (f a b c : A → ℕ)
    → ((x : A) → f x ≤ a x + (b x + c x))
    → (xs : List A) → sum_by f xs ≤ sum_by a xs + (sum_by b xs + sum_by c xs)
sum_by-≤ f a b c h [] = omega arith
sum_by-≤ f a b c h (x ∷ xs) = omega (arith, h x, sum_by-≤ f a b c h xs)

-- A sum of 0 has no other summand.
pub sum_by-zero :
    {A : Type 0} (f : A → ℕ) (xs : List A) (i : ℕ) (x : A)
    → sum_by f xs ≡ 0
    → get_elem? xs i ≡ some x
    → f x ≡ 0
sum_by-zero f [] i x h e = absurd (grind arith)
sum_by-zero f (y ∷ ys) zero x h e =
    let q : y ≡ x = same_some refl e in subst (λ z. f z ≡ 0) q (omega (arith, h))
sum_by-zero f (y ∷ ys) (suc i) x h e = sum_by-zero f ys i x (omega (arith, h)) e

pub sum_by-insert :
    {A : Type 0} (f : A → ℕ) (xs : List A) (x : A) (ys : List A)
    → sum_by f (xs ++ (x ∷ ys)) ≡ f x + sum_by f (xs ++ ys)
sum_by-insert f [] x ys = refl
sum_by-insert f (z ∷ xs) x ys = omega (arith, sum_by-insert f xs x ys)

pub sum_by_mono :
    {A : Type 0} (f g : A → ℕ) → ((x : A) → f x ≤ g x) → (xs : List A) → sum_by f xs ≤ sum_by g xs
sum_by_mono f g h [] = omega arith
sum_by_mono f g h (x ∷ xs) = omega (arith, h x, sum_by_mono f g h xs)
