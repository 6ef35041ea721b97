-- ===== src/Sync/Mutexes.antt =====
-- What holds of a mutex of dll/kernel32/synchapi.cpp along any history of waits and releases.
use wibo.Base.{
  ℕ, suc, ◌+◌, ◌-◌, ◌^◌, ◌≤◌, ◌<◌, ◌≡◌, ◌≢◌, ◌⊎◌, refl, arith, List, [], ◌∷◌, Bool, true, false,
  not, ◌&&◌, ltb, ◌==◌, if◌then◌else◌, length,
}
use wibo.Sync.Waitables.{acquired, given_back, Mutex, create_mutex, release_mutex, wait_mutex}

-- A thread waits for a mutex, or releases it.
pub data MutexCall : Type 0 where
  waits releases : ℕ → MutexCall

-- How often the thread `t` has acquired the mutex, and how often it has released it, along a history that
-- goes back from its last call; with the mutex after it.
pub record Use : Type 0 where
  pub mutex : Mutex
  pub acquisitions : ℕ → ℕ
  pub returns : ℕ → ℕ

abbrev add_at : ℕ → ℕ → (ℕ → ℕ) → ℕ → ℕ
add_at t n f u = f u + (if u == t then n else 0)

unfoldable pub after_call : MutexCall → Use → Use
after_call (MutexCall.waits t) u = record {
  mutex = (wait_mutex t u.mutex).1;
  acquisitions = add_at t (acquired (wait_mutex t u.mutex).0) u.acquisitions;
  returns = u.returns;
}
after_call (MutexCall.releases t) u = record {
  mutex = (release_mutex t u.mutex).1;
  acquisitions = u.acquisitions;
  returns = add_at t (given_back (release_mutex t u.mutex).0) u.returns;
}

unfoldable pub after_calls : List MutexCall → Use → Use
after_calls [] u = u
after_calls (c ∷ cs) u = after_call c (after_calls cs u)

-- How often a mutex's owner has to release it.
abbrev pub held_by : Mutex → ℕ → ℕ
held_by m t = if m.owner_valid && (m.owner == t) then m.recursion_count else 0

-- A mutex as it is created; who owns it from the start has acquired it.
abbrev pub created : ℕ → Bool → Use
created self initial_owner = record {
  mutex = create_mutex self initial_owner;
  acquisitions = held_by (create_mutex self initial_owner);
  returns = λ t. 0;
}

record IsBalanced (n : ℕ) (u : Use) : Type 0 where
  balance : (t : ℕ) → u.acquisitions t ≡ u.returns t + held_by u.mutex t
  owned : u.mutex.owner_valid ≡ ltb 0 u.mutex.recursion_count
  signals : u.mutex.signaled ≡ not u.mutex.owner_valid
  sane : u.mutex.abandoned ≡ false
  few : u.mutex.recursion_count ≤ n

after_call-IsBalanced :
    (n : ℕ) (c : MutexCall) (u : Use)
    → n < 2 ^ 32 - 1
    → IsBalanced n u
    → IsBalanced (suc n) (after_call c u)
unfolding after_call wait_mutex release_mutex
after_call-IsBalanced n (MutexCall.waits t) u few b = record {
  balance = λ x. let e = b.balance x in ground (arith, e, few, b.owned, b.sane, b.few);
  owned = ground (arith, few, b.owned, b.sane, b.few);
  signals = ground (arith, few, b.owned, b.signals, b.sane, b.few);
  sane = ground (arith, few, b.owned, b.sane, b.few);
  few = ground (arith, few, b.owned, b.sane, b.few);
}
after_call-IsBalanced n (MutexCall.releases t) u few b = record {
  balance = λ x. let e = b.balance x in ground (arith, e, few, b.owned, b.sane, b.few);
  owned = ground (arith, few, b.owned, b.sane, b.few);
  signals = ground (arith, few, b.owned, b.signals, b.sane, b.few);
  sane = ground (arith, few, b.owned, b.sane, b.few);
  few = ground (arith, few, b.owned, b.sane, b.few);
}

after_calls-IsBalanced :
    (cs : List MutexCall) (self : ℕ) (initial_owner : Bool)
    → length cs < 2 ^ 32 - 1
    → IsBalanced (suc (length cs)) (after_calls cs (created self initial_owner))
unfolding after_calls create_mutex
after_calls-IsBalanced [] self true h = record {
  balance = λ t. omega arith;
  owned = refl;
  signals = refl;
  sane = refl;
  few = omega arith;
}
after_calls-IsBalanced [] self false h = record {
  balance = λ t. refl;
  owned = refl;
  signals = refl;
  sane = refl;
  few = omega arith;
}
after_calls-IsBalanced (c ∷ cs) self o h =
    after_call-IsBalanced (suc (length cs)) c (after_calls cs (created self o)) (omega (arith, h))
      (after_calls-IsBalanced cs self o (omega (arith, h)))

-- What a mutex promises.
abbrev pub IsExclusive : Use → Type 0
IsExclusive u =
    ((t : ℕ) → u.acquisitions t ≡ u.returns t + held_by u.mutex t)
    × ((t v : ℕ) → t ≢ v → (u.acquisitions t ≡ u.returns t) ⊎ (u.acquisitions v ≡ u.returns v))
    × (u.mutex.signaled ≡ not u.mutex.owner_valid)

-- Along any history of fewer than 2 ^ 32 - 1 waits and releases by any threads, a thread has acquired the
-- mutex as often as it has released it, and once more for each release that the mutex still counts for it
-- as the owner; of two threads, one has released it as often; and it is signaled when nobody owns it.
pub after_calls-IsExclusive :
    (cs : List MutexCall) (self : ℕ) (initial_owner : Bool)
    → length cs < 2 ^ 32 - 1
    → IsExclusive (after_calls cs (created self initial_owner))
after_calls-IsExclusive cs self o h =
    let b = after_calls-IsBalanced cs self o h in
    (
      b.balance,
      λ t v n. let e = b.balance t in let f = b.balance v in ground (arith, e, f, n),
      b.signals,
    )
