-- ===== src/Sync/Waitables.antt =====
-- The objects that dll/kernel32/synchapi.cpp waits on (dll/kernel32/internal.h), and what its functions do to
-- them once a handle is resolved. Each function does this under the object's mutex, so that it is one step.
-- A wait ends, at the latest when its time is up, with the test of its condition: it is that last test, and
-- what follows it, that is one step.
use wibo.Base.{
  ℕ, ◌+◌, ◌-◌, ◌%◌, ◌^◌, Bool, true, false, not, ◌&&◌, ◌||◌, Option, none, some, ltb, ◌==◌,
  if◌then◌else◌,
}
use wibo.Base.Int.{ℤ, pos, negsuc}

abbrev pub wait_object_0 : ℕ
wait_object_0 = 0

abbrev pub wait_abandoned : ℕ
wait_abandoned = 0x80

abbrev pub wait_timeout : ℕ
wait_timeout = 0x102

abbrev pub wait_failed : ℕ
wait_failed = 0xFFFFFFFF

abbrev pub error_invalid_parameter : ℕ
error_invalid_parameter = 87

abbrev pub error_not_owner : ℕ
error_not_owner = 288

abbrev pub error_too_many_posts : ℕ
error_too_many_posts = 298

-- `EventObject`
pub record Event : Type 0 where
  pub manual_reset : Bool
  pub signaled : Bool

-- `SemaphoreObject`
pub record Semaphore : Type 0 where
  pub count : ℕ
  pub max_count : ℕ
  pub signaled : Bool

-- `MutexObject`
pub record Mutex : Type 0 where
  pub owner_valid : Bool
  pub owner : ℕ
  pub recursion_count : ℕ
  pub abandoned : Bool
  pub signaled : Bool

-- `ThreadObject`
pub record ThreadObject : Type 0 where
  pub thread : ℕ
  pub signaled : Bool

-- `ProcessObject`
pub record ProcessObject : Type 0 where
  pub waitable : Bool
  pub signaled : Bool

pub data Waitable : Type 0 where
  an_event : Event → Waitable
  a_semaphore : Semaphore → Waitable
  a_mutex : Mutex → Waitable
  a_thread : ThreadObject → Waitable
  a_process : ProcessObject → Waitable

-- The object that `CreateEventW` makes.
unfoldable pub create_event : Bool → Bool → Event
create_event manual_reset initial_state = record {
  manual_reset = manual_reset;
  signaled = initial_state;
}

-- The object that `CreateSemaphoreW` makes, if its counts are in range.
unfoldable pub create_semaphore : ℤ → ℤ → Option Semaphore
create_semaphore (negsuc _) maximum = none
create_semaphore (pos initial) (negsuc _) = none
create_semaphore (pos initial) (pos maximum) =
    if (maximum == 0) || ltb maximum initial
    then none
    else some (record { count = initial; max_count = maximum; signaled = false })

-- The object that `CreateMutexW` makes for the thread `self`.
unfoldable pub create_mutex : ℕ → Bool → Mutex
create_mutex self initial_owner =
    if initial_owner
    then record {
      owner_valid = true;
      owner = self;
      recursion_count = 1;
      abandoned = false;
      signaled = false;
    }
    else record {
      owner_valid = false;
      owner = 0;
      recursion_count = 0;
      abandoned = false;
      signaled = true;
    }

-- `EventObject::set` and `reset`
unfoldable pub set_event : Event → Event
set_event e = record e { signaled = true }

unfoldable pub reset_event : Event → Event
reset_event e = record e { signaled = false }

-- What a release answers: an error, or success and whether waiters are notified.
pub data Released : Type 0 where
  fails : ℕ → Released
  succeeds : Bool → Released

-- `ReleaseMutex` by the thread `self`.
unfoldable pub release_mutex : ℕ → Mutex → Released × Mutex
release_mutex self mu =
    let left = (mu.recursion_count + (2 ^ 32 - 1)) % 2 ^ 32 in
    if not mu.owner_valid || not (mu.owner == self) || (mu.recursion_count == 0)
    then (Released.fails error_not_owner, mu)
    else if left == 0
    then (
      Released.succeeds true,
      record mu { recursion_count = 0; owner_valid = false; signaled = true },
    )
    else (Released.succeeds false, record mu { recursion_count = left })

-- `ReleaseSemaphore`, without the previous count. A count above `maxCount - lReleaseCount` is one whose sum
-- with the release is above the maximum.
unfoldable pub release_semaphore : ℤ → Semaphore → Released × Semaphore
release_semaphore (negsuc _) sem = (Released.fails error_invalid_parameter, sem)
release_semaphore (pos n) sem =
    if ltb sem.max_count (sem.count + n) then (Released.fails error_too_many_posts, sem) else (
      Released.succeeds (ltb 0 (sem.count + n)),
      record sem { count = sem.count + n; signaled = ltb 0 (sem.count + n) },
    )

-- The cases of `WaitForSingleObject`.
unfoldable pub wait_event : Event → ℕ × Event
wait_event e =
    if e.signaled
    then (wait_object_0, if e.manual_reset then e else record e { signaled = false })
    else (wait_timeout, e)

unfoldable pub wait_semaphore : Semaphore → ℕ × Semaphore
wait_semaphore sem =
    if ltb 0 sem.count
    then (
      wait_object_0,
      record sem {
        count = sem.count - 1;
        signaled = if sem.count - 1 == 0 then false else sem.signaled;
      },
    )
    else (wait_timeout, sem)

unfoldable pub wait_mutex : ℕ → Mutex → ℕ × Mutex
wait_mutex self mu =
    if mu.owner_valid && (mu.owner == self)
    then (wait_object_0, record mu { recursion_count = (mu.recursion_count + 1) % 2 ^ 32 })
    else if not mu.owner_valid || mu.abandoned
    then (
      if mu.abandoned then wait_abandoned else wait_object_0,
      record {
        owner_valid = true;
        owner = self;
        recursion_count = 1;
        abandoned = false;
        signaled = false;
      },
    )
    else (wait_timeout, mu)

unfoldable pub wait_thread : ℕ → ThreadObject → ℕ
wait_thread self th =
    if th.thread == self then wait_timeout else if th.signaled then wait_object_0 else wait_timeout

unfoldable pub wait_process : ProcessObject → ℕ
wait_process po =
    if not po.signaled && not po.waitable
    then wait_timeout
    else if po.signaled
    then wait_object_0
    else wait_timeout

-- Whether a wait or a release has succeeded, as a number.
abbrev pub acquired : ℕ → ℕ
acquired r = if r == wait_timeout then 0 else 1

abbrev pub given_back : Released → ℕ
given_back (Released.fails _) = 0
given_back (Released.succeeds _) = 1

abbrev keep : (A : Type 0) → (A → Waitable) → ℕ × A → ℕ × Waitable
keep A f (r, a) = (r, f a)

-- `WaitForSingleObject` by the thread `self`, at the moment it ends.
unfoldable pub wait_for_single_object : ℕ → Waitable → ℕ × Waitable
wait_for_single_object self (Waitable.an_event e) = keep Event Waitable.an_event (wait_event e)
wait_for_single_object self (Waitable.a_semaphore s) =
    keep Semaphore Waitable.a_semaphore (wait_semaphore s)
wait_for_single_object self (Waitable.a_mutex m) = keep Mutex Waitable.a_mutex (wait_mutex self m)
wait_for_single_object self (Waitable.a_thread t) = (wait_thread self t, Waitable.a_thread t)
wait_for_single_object self (Waitable.a_process p) = (wait_process p, Waitable.a_process p)
