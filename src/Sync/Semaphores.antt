-- ===== src/Sync/Semaphores.antt =====
-- What holds of a semaphore of dll/kernel32/synchapi.cpp along any history of waits and releases.
use wibo.Base.{
  false, ◌⊎◌, ltb, if◌then◌else◌, ℕ, ◌+◌, ◌*◌, ◌≤◌, ◌<◌, ◌≡◌, arith, List, [], ◌∷◌, true, some,
}
use wibo.Base.Int.{ℤ, pos, negsuc}
use wibo.Sync.Waitables.{
  acquired, given_back, Semaphore, create_semaphore, release_semaphore, wait_semaphore,
}

-- A wait for a semaphore, or a release.
pub data SemaphoreCall : Type 0 where
  takes : SemaphoreCall
  posts : ℤ → SemaphoreCall

-- A semaphore, how many waits for it have succeeded, and how much was released to it.
pub record Stock : Type 0 where
  pub semaphore : Semaphore
  pub taken : ℕ
  pub posted : ℕ

abbrev amount : ℤ → ℕ
amount (pos n) = n
amount (negsuc _) = 0

unfoldable pub after_semaphore_call : SemaphoreCall → Stock → Stock
after_semaphore_call SemaphoreCall.takes s = record {
  semaphore = (wait_semaphore s.semaphore).1;
  taken = s.taken + acquired (wait_semaphore s.semaphore).0;
  posted = s.posted;
}
after_semaphore_call (SemaphoreCall.posts n) s = record {
  semaphore = (release_semaphore n s.semaphore).1;
  taken = s.taken;
  posted = s.posted + given_back (release_semaphore n s.semaphore).0 * amount n;
}

unfoldable pub after_semaphore_calls : List SemaphoreCall → Stock → Stock
after_semaphore_calls [] s = s
after_semaphore_calls (c ∷ cs) s = after_semaphore_call c (after_semaphore_calls cs s)

-- What a semaphore promises, from `initial` on and up to `maximum`: how much it has, and that a wait, whose
-- results are 0 and 0x102, succeeds exactly if it has some, as it has where it is signaled.
abbrev pub IsStocked : ℕ → ℕ → Stock → Type 0
IsStocked initial maximum s =
    (s.semaphore.count + s.taken ≡ initial + s.posted)
    × (s.semaphore.count ≤ maximum)
    × (s.semaphore.max_count ≡ maximum)
    × ((wait_semaphore s.semaphore).0 ≡ (if ltb 0 s.semaphore.count then 0 else 0x102))
    × ((s.semaphore.signaled ≡ false) ⊎ ((wait_semaphore s.semaphore).0 ≡ 0))

-- What a call keeps of that.
abbrev Keeps : ℕ → ℕ → Stock → Type 0
Keeps initial maximum s =
    (s.semaphore.count + s.taken ≡ initial + s.posted)
    × (s.semaphore.count ≤ maximum)
    × (s.semaphore.max_count ≡ maximum)
    × (s.semaphore.signaled ≡ true → 0 < s.semaphore.count)

wait_semaphore-result :
    (s : Semaphore)
    → (s.signaled ≡ true → 0 < s.count)
    → ((wait_semaphore s).0 ≡ (if ltb 0 s.count then 0 else 0x102))
      × ((s.signaled ≡ false) ⊎ ((wait_semaphore s).0 ≡ 0))
unfolding wait_semaphore
wait_semaphore-result s h = (ground arith, ground (arith, h))

after_semaphore_call-Keeps :
    (i m : ℕ) (c : SemaphoreCall) (s : Stock) → Keeps i m s → Keeps i m (after_semaphore_call c s)
unfolding after_semaphore_call wait_semaphore release_semaphore
after_semaphore_call-Keeps i m SemaphoreCall.takes s (a, b, c, d) =
    (ground (arith, a), ground (arith, b), ground (arith, c), ground (arith, d))
after_semaphore_call-Keeps i m (SemaphoreCall.posts (negsuc n)) s (a, b, c, d) =
    (ground (arith, a), ground (arith, b), ground (arith, c), ground (arith, d))
after_semaphore_call-Keeps i m (SemaphoreCall.posts (pos n)) s (a, b, c, d) =
    (ground (arith, a), ground (arith, b, c), ground (arith, c), ground (arith, d))

after_semaphore_calls-Keeps :
    (initial maximum : ℕ) (sem : Semaphore) (cs : List SemaphoreCall)
    → create_semaphore (pos initial) (pos maximum) ≡ some sem
    → Keeps initial maximum
        (after_semaphore_calls cs (record { semaphore = sem; taken = 0; posted = 0 }))
unfolding after_semaphore_calls create_semaphore
after_semaphore_calls-Keeps i m sem [] e = ground (arith, e)
after_semaphore_calls-Keeps i m sem (c ∷ cs) e =
    after_semaphore_call-Keeps i m c
      (after_semaphore_calls cs (record { semaphore = sem; taken = 0; posted = 0 }))
      (after_semaphore_calls-Keeps i m sem cs e)

-- Along any history of waits and releases of a semaphore that was created, it never has more than its maximum,
-- what it has and what was taken add up to what it had at first and what was released, a wait succeeds
-- exactly if it has some, and where it is signaled a wait succeeds.
pub after_semaphore_calls-IsStocked :
    (initial maximum : ℕ) (sem : Semaphore) (cs : List SemaphoreCall)
    → create_semaphore (pos initial) (pos maximum) ≡ some sem
    → IsStocked initial maximum
        (after_semaphore_calls cs (record { semaphore = sem; taken = 0; posted = 0 }))
after_semaphore_calls-IsStocked i m sem cs e =
    let s = after_semaphore_calls cs (record { semaphore = sem; taken = 0; posted = 0 }) in
    let (a, b, c, d) = after_semaphore_calls-Keeps i m sem cs e in
    let (f, g) = wait_semaphore-result s.semaphore d in (a, b, c, f, g)
