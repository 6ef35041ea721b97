-- ===== src/Sync/Section.antt =====
-- The critical sections of dll/kernel32/synchapi.cpp: the words of RTL_CRITICAL_SECTION, as patterns of 32
-- bits, and threads that act on them one operation at a time. Waking a waiter makes it read again and changes
-- nothing. The debug information of a section is left out.
use wibo.Base.{
  ℕ, zero, suc, ◌+◌, ◌-◌, ◌%◌, ◌^◌, ◌<◌, List, [], ◌∷◌, ◌++◌, Bool, ◌&&◌, Option, none, some, ltb,
  ◌==◌, if◌then◌else◌,
}
use wibo.Sync.Threads.{sum_by}

-- The fields of RTL_CRITICAL_SECTION that change; `tickets` is its LockSemaphore.
pub record Section : Type 0 where
  pub lock_count : ℕ
  pub recursion_count : ℕ
  pub owning_thread : ℕ
  pub tickets : ℕ

-- As `InitializeCriticalSectionEx` leaves them: zeros, and -1 for the count.
abbrev pub fresh_section : Section
fresh_section = record {
  lock_count = 2 ^ 32 - 1;
  recursion_count = 0;
  owning_thread = 0;
  tickets = 0;
}

-- `InterlockedIncrement` and `InterlockedDecrement`
abbrev pub increment : ℕ → ℕ
increment v = (v + 1) % 2 ^ 32

abbrev pub decrement : ℕ → ℕ
decrement v = (v + (2 ^ 32 - 1)) % 2 ^ 32

-- A pattern as a signed number above 0.
abbrev pub is_positive : ℕ → Bool
is_positive v = ltb 0 v && ltb v (2 ^ 31)

-- The next operation of a thread. The spins that `trySpinAcquireCriticalSection` has left stand with the
-- operations of its calls of `TryEnterCriticalSection`, none with those of other calls.
pub data Place : Type 0 where
  resting : Place
  try_swap try_owner : Option ℕ → Place
  try_count : Place
  spin_count spin_owner : ℕ → Place
  enter_count enter_owner : Place
  load_tickets : Place
  wait_tickets swap_tickets : ℕ → Place
  set_owner set_recursion add_recursion : Place
  leave_recursion leave_one clear_owner leave_last signal : Place

-- A thread: its id, how often more it has entered the section than left it, and its next operation.
pub record Thread : Type 0 where
  pub id : ℕ
  pub depth : ℕ
  pub place : Place

-- What follows a call of `TryEnterCriticalSection` that fails.
abbrev pub after_failure : Option ℕ → Place
after_failure none = Place.resting
after_failure (some spins) = Place.spin_count spins

-- The head of the spin loop.
abbrev pub spin : ℕ → Place
spin zero = Place.enter_count
spin (suc n) = Place.try_swap (some (suc n))

-- The end of the spin loop's body.
abbrev pub spin_less : ℕ → Place
spin_less zero = Place.enter_count
spin_less (suc n) = spin n

abbrev pub Both : Type 0
Both = Thread × Section

abbrev pub go : Thread → Place → Section → Both
go t place c = (record t { place = place }, c)

-- `--RecursionCount != 0`, of a thread that is `depth` deep after it.
abbrev pub leave_to : ℕ → Place
leave_to count = if count == 0 then Place.clear_owner else Place.leave_one

-- The next operation of the thread on the section.
unfoldable pub act : Thread → Place → Section → Both
act t Place.resting c = go t Place.resting c
act t (Place.try_swap spins) c =
    if c.lock_count == 2 ^ 32 - 1
    then go t Place.set_owner (record c { lock_count = 0 })
    else go t (Place.try_owner spins) c
act t (Place.try_owner spins) c =
    if c.owning_thread == t.id then go t Place.try_count c else go t (after_failure spins) c
act t Place.try_count c =
    go t Place.add_recursion (record c { lock_count = increment c.lock_count })
act t (Place.spin_count spins) c =
    if is_positive c.lock_count then go t Place.enter_count c else go t (Place.spin_owner spins) c
act t (Place.spin_owner spins) c =
    if c.owning_thread == t.id then go t Place.enter_count c else go t (spin_less spins) c
act t Place.enter_count c =
    go t (if increment c.lock_count == 0 then Place.set_owner else Place.enter_owner)
      (record c { lock_count = increment c.lock_count })
act t Place.enter_owner c =
    if c.owning_thread == t.id then go t Place.add_recursion c else go t Place.load_tickets c
act t Place.load_tickets c =
    if is_positive c.tickets
    then go t (Place.swap_tickets c.tickets) c
    else go t (Place.wait_tickets c.tickets) c
act t (Place.wait_tickets available) c =
    if c.tickets == available
    then go t (Place.wait_tickets available) c
    else go t Place.load_tickets c
act t (Place.swap_tickets available) c =
    if c.tickets == available
    then go t Place.set_owner (record c { tickets = decrement available })
    else go t Place.load_tickets c
act t Place.set_owner c = go t Place.set_recursion (record c { owning_thread = t.id })
act t Place.set_recursion c =
    (record t { depth = 1; place = Place.resting }, record c { recursion_count = 1 })
act t Place.add_recursion c = (
  record t { depth = t.depth + 1; place = Place.resting },
  record c { recursion_count = increment c.recursion_count },
)
act t Place.leave_recursion c = (
  record t { depth = t.depth - 1; place = leave_to (decrement c.recursion_count) },
  record c { recursion_count = decrement c.recursion_count },
)
act t Place.leave_one c = go t Place.resting (record c { lock_count = decrement c.lock_count })
act t Place.clear_owner c = go t Place.leave_last (record c { owning_thread = 0 })
act t Place.leave_last c =
    go t (if ltb (decrement c.lock_count) (2 ^ 31) then Place.signal else Place.resting)
      (record c { lock_count = decrement c.lock_count })
act t Place.signal c = go t Place.resting (record c { tickets = increment c.tickets })

-- The calls of a thread that is out of all calls; it leaves only what it has entered. `spins` is the
-- section's SpinCount.
pub data Begins (spins : ℕ) : ℕ → Place → Type 0 where
  enters : (depth : ℕ) → Begins spins depth (spin spins)
  tries : (depth : ℕ) → Begins spins depth (Place.try_swap none)
  leaves : (depth : ℕ) → Begins spins (suc depth) Place.leave_recursion

pub record Scene : Type 0 where
  pub section : Section
  pub threads : List Thread

pub data Step (spins : ℕ) : Scene → Scene → Type 0 where
  begins :
      (c : Section) (before after : List Thread) (id depth : ℕ) (q : Place)
      → Begins spins depth q
      → Step spins
          (record {
            section = c;
            threads = before ++ (record { id = id; depth = depth; place = Place.resting } ∷ after);
          })
          (record {
            section = c;
            threads = before ++ (record { id = id; depth = depth; place = q } ∷ after);
          })
  goes_on :
      (c : Section) (before after : List Thread) (t : Thread)
      → Step spins
          (record { section = c; threads = before ++ (t ∷ after) })
          (record {
            section = (act t t.place c).1;
            threads = before ++ ((act t t.place c).0 ∷ after);
          })

-- The thread has counted itself in but for the entries of its depth.
abbrev pub extra : Place → ℕ
extra Place.enter_owner = 1
extra Place.load_tickets = 1
extra (Place.wait_tickets _) = 1
extra (Place.swap_tickets _) = 1
extra Place.set_owner = 1
extra Place.set_recursion = 1
extra Place.add_recursion = 1
extra Place.leave_one = 1
extra Place.clear_owner = 1
extra Place.leave_last = 1
extra p = 0

-- How often the thread is counted in.
abbrev pub entries : Thread → ℕ
entries t = t.depth + extra t.place

abbrev pub total_entries : Scene → ℕ
total_entries s = sum_by entries s.threads

abbrev pub outside : List ℕ → List Thread
outside [] = []
outside (i ∷ ids) = record { id = i; depth = 0; place = Place.resting } ∷ outside ids

-- What is reached from a fresh section and threads outside, in any order of their operations, while there are
-- fewer than 2 ^ 31 entries, as the count has room for.
pub data Reach (spins : ℕ) (ids : List ℕ) : Scene → Type 0 where
  start : Reach spins ids (record { section = fresh_section; threads = outside ids })
  later :
      {s t : Scene}
      → Reach spins ids s
      → Step spins s t
      → total_entries t < 2 ^ 31
      → Reach spins ids t
