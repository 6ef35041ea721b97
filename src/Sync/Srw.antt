-- ===== src/Sync/Srw.antt =====
-- The slim reader and writer locks of dll/kernel32/synchapi.cpp: one 32-bit word, and threads that act on
-- it by atomic operations. A thread's position says which operation is next and what it has read.
-- WaitOnAddress without a timeout is a loop that goes on once it reads another value; waking a waiter makes
-- it read again and changes nothing.
use wibo.Base.{
  ℕ, zero, suc, ◌+◌, ◌-◌, ◌%◌, ◌^◌, List, [], ◌∷◌, ◌++◌, Bool, not, ◌&&◌, ◌==◌, if◌then◌else◌,
}

abbrev pub srw_lock_exclusive : ℕ
srw_lock_exclusive = 1

abbrev pub srw_lock_shared_increment : ℕ
srw_lock_shared_increment = 2

-- Where a thread stands: out of all calls, as `idle` without the lock, as `reading` or `writing` with it;
-- or before the next operation of a call.
pub data Position : Type 0 where
  idle reading writing : Position
  load_shared : Position
  wait_shared swap_shared : ℕ → Position
  swap_exclusive : Position
  wait_exclusive : ℕ → Position
  try_exclusive : Position
  try_load : Position
  try_shared : ℕ → Position
  release_shared release_exclusive : Position

-- `current & kSrwLockExclusive`
abbrev pub is_exclusive : ℕ → Bool
is_exclusive v = v % 2 == 1

-- The calls, and where a thread may make them.
pub data Begins : Position → Position → Type 0 where
  acquire_shared : Begins Position.idle Position.load_shared
  acquire_exclusive : Begins Position.idle Position.swap_exclusive
  try_acquire_shared : Begins Position.idle Position.try_load
  try_acquire_exclusive : Begins Position.idle Position.try_exclusive
  releases_shared : Begins Position.reading Position.release_shared
  releases_exclusive : Begins Position.writing Position.release_exclusive

-- The test of `TryAcquireSRWLockShared`'s loop.
abbrev pub test_shared : ℕ → Position
test_shared current = if is_exclusive current then Position.idle else Position.try_shared current

-- The next operation on the word `v`. A weak compare-and-exchange may also fail when the values agree, which
-- `spurious` says.
unfoldable pub proceed : Bool → Position → ℕ → Position × ℕ
proceed spurious Position.load_shared v =
    if is_exclusive v then (Position.wait_shared v, v) else (Position.swap_shared v, v)
proceed spurious (Position.wait_shared observed) v =
    if v == observed then (Position.wait_shared observed, v) else (Position.load_shared, v)
proceed spurious (Position.swap_shared current) v =
    if (v == current) && not spurious
    then (Position.reading, (current + srw_lock_shared_increment) % 2 ^ 32)
    else (Position.load_shared, v)
proceed spurious Position.swap_exclusive v =
    if v == 0 then (Position.writing, srw_lock_exclusive) else (Position.wait_exclusive v, v)
proceed spurious (Position.wait_exclusive expected) v =
    if v == expected then (Position.wait_exclusive expected, v) else (Position.swap_exclusive, v)
proceed spurious Position.try_exclusive v =
    if v == 0 then (Position.writing, srw_lock_exclusive) else (Position.idle, v)
proceed spurious Position.try_load v = (test_shared v, v)
proceed spurious (Position.try_shared current) v =
    if (v == current) && not spurious
    then (Position.reading, (current + srw_lock_shared_increment) % 2 ^ 32)
    else (test_shared v, v)
proceed spurious Position.release_shared v =
    (Position.idle, (v + (2 ^ 32 - srw_lock_shared_increment)) % 2 ^ 32)
proceed spurious Position.release_exclusive v = (Position.idle, 0)
proceed spurious p v = (p, v)

-- The word of the lock, with the threads.
pub record Srw : Type 0 where
  pub value : ℕ
  pub threads : List Position

-- One thread begins a call or does its next operation.
pub data Step : Srw → Srw → Type 0 where
  begins :
      (v : ℕ) (before after : List Position) (p q : Position)
      → Begins p q
      → Step
          (record { value = v; threads = before ++ (p ∷ after) })
          (record { value = v; threads = before ++ (q ∷ after) })
  goes_on :
      (spurious : Bool) (v : ℕ) (before after : List Position) (p : Position)
      → Step
          (record { value = v; threads = before ++ (p ∷ after) })
          (record {
            value = (proceed spurious p v).1;
            threads = before ++ ((proceed spurious p v).0 ∷ after);
          })

abbrev pub idle_threads : ℕ → List Position
idle_threads zero = []
idle_threads (suc n) = Position.idle ∷ idle_threads n

-- What is reached from a lock that is free and `n` idle threads, in any order of their steps.
pub data Reach (n : ℕ) : Srw → Type 0 where
  start : Reach n (record { value = 0; threads = idle_threads n })
  later : {s t : Srw} → Reach n s → Step s t → Reach n t
