-- ===== src/Sync/Once.antt =====
-- One-time initialisation in dll/kernel32/synchapi.cpp: `InitOnceBeginInitialize` and `InitOnceComplete` on one
-- word, one operation of one thread at a time. The calls that are refused for their flags are left out.
use wibo.Base.{
  ℕ, zero, suc, ◌+◌, ◌-◌, ◌%◌, ◌≡◌, List, [], ◌∷◌, ◌++◌, Bool, true, false, not, Option, none, some,
  ◌==◌, if◌then◌else◌,
}
use wibo.Base.Maps.{put}
use wibo.Sync.Waitables.{error_invalid_parameter}

abbrev pub error_gen_failure : ℕ
error_gen_failure = 31

-- `InitOnceState`
pub record InitOnceState : Type 0 where
  pub completed : Bool
  pub success : Bool
  pub context : ℕ

abbrev pub new_state : InitOnceState
new_state = record { completed = false; success = false; context = 0 }

-- The word, `g_initOnceStates` at its address, and the states by number, of which `made` were made.
pub record Once : Type 0 where
  pub ptr : ℕ
  pub registered : Option ℕ
  pub states : ℕ → InitOnceState
  pub made : ℕ

-- The arguments of a call of `InitOnceComplete`.
pub record Completion : Type 0 where
  pub mark_failed : Bool
  pub is_async : Bool
  pub context_value : ℕ

-- What a thread does next; `initializes` is out of all calls, after it was told to initialise.
pub data Stage : Type 0 where
  idle check_load : Stage
  begin_load : Bool → Stage
  swap_async swap_sync : Stage
  insert_state : ℕ → Stage
  find_state : Stage
  wait_state : ℕ → Stage
  initializes : Bool → Stage
  complete_load find_complete : Completion → Stage
  swap_complete : Completion → ℕ → Stage
  swap_async_complete : Completion → Stage
  fill_state : Completion → ℕ → Stage
  erase_state : Stage
  is_initialized : ℕ → Stage
  fails : ℕ → Stage

-- `val & kInitOnceStateMask`
abbrev pub state_of : ℕ → ℕ
state_of v = v % 4

-- The switch of `InitOnceBeginInitialize`.
abbrev pub begin_switch : Bool → ℕ → Stage
begin_switch is_async v =
    if state_of v == 0
    then (if is_async then Stage.swap_async else Stage.swap_sync)
    else if state_of v == 1
    then (if is_async then Stage.fails error_invalid_parameter else Stage.find_state)
    else if state_of v == 2
    then Stage.is_initialized (v - 2)
    else if is_async
    then Stage.initializes true
    else Stage.fails error_invalid_parameter

-- The answer where only a check is asked for.
abbrev pub check : ℕ → Stage
check v = if state_of v == 2 then Stage.is_initialized (v - 2) else Stage.fails error_gen_failure

-- `finalValue`; a context that is not refused has no reserved bits.
abbrev pub final_value : Completion → ℕ
final_value c = if c.mark_failed then 0 else c.context_value + 2

-- The switch of `InitOnceComplete`.
abbrev pub complete_switch : Completion → ℕ → Stage
complete_switch c v =
    if state_of v == 1
    then Stage.find_complete c
    else if state_of v == 3
    then (if c.is_async then Stage.swap_async_complete c else Stage.fails error_invalid_parameter)
    else Stage.fails error_gen_failure

abbrev pub after_wait : ℕ → InitOnceState → Stage
after_wait k s =
    if s.completed
    then (if s.success then Stage.is_initialized s.context else Stage.begin_load false)
    else Stage.wait_state k

abbrev pub filled_state : Completion → InitOnceState
filled_state c = record {
  completed = true;
  success = not c.mark_failed;
  context = if c.mark_failed then 0 else c.context_value;
}

-- The next operation of a thread. The values that the last two compare with are 1 and 3, since the word is
-- never another one in these states.
unfoldable pub operate : Stage → Once → Stage × Once
operate Stage.idle o = (Stage.idle, o)
operate Stage.check_load o = (check o.ptr, o)
operate (Stage.begin_load is_async) o = (begin_switch is_async o.ptr, o)
operate Stage.swap_async o =
    if o.ptr == 0
    then (Stage.initializes true, record o { ptr = 3 })
    else (Stage.begin_load true, o)
operate Stage.swap_sync o =
    if o.ptr == 0
    then (
      Stage.insert_state o.made,
      record o { ptr = 1; states = put o.states o.made new_state; made = suc o.made },
    )
    else (Stage.begin_load false, o)
operate (Stage.insert_state k) o = (Stage.initializes false, record o { registered = some k })
operate Stage.find_state o = elim o.registered [
  | none ↦ (Stage.begin_load false, o)
  | some k ↦ (Stage.wait_state k, o)
]
operate (Stage.wait_state k) o = (after_wait k (o.states k), o)
operate (Stage.initializes is_async) o = (Stage.initializes is_async, o)
operate (Stage.complete_load c) o = (complete_switch c o.ptr, o)
operate (Stage.find_complete c) o = elim o.registered [
  | none ↦ (Stage.fails error_gen_failure, o)
  | some k ↦ (Stage.swap_complete c k, o)
]
operate (Stage.swap_complete c k) o =
    if o.ptr == 1
    then (Stage.fill_state c k, record o { ptr = final_value c })
    else (Stage.complete_load c, o)
operate (Stage.swap_async_complete c) o =
    if o.ptr == 3
    then (Stage.idle, record o { ptr = final_value c })
    else (Stage.complete_load c, o)
operate (Stage.fill_state c k) o =
    (Stage.erase_state, record o { states = put o.states k (filled_state c) })
operate Stage.erase_state o = (Stage.idle, record o { registered = none })
operate (Stage.is_initialized context) o = (Stage.is_initialized context, o)
operate (Stage.fails e) o = (Stage.fails e, o)

-- The calls: a thread out of all calls begins or asks, and one that was told to initialise completes, with the flag
-- for asynchronous use as it was told, an aligned context, and no failure of an asynchronous one.
pub data Begins : Stage → Stage → Type 0 where
  begins : (is_async : Bool) → Begins Stage.idle (Stage.begin_load is_async)
  checks : Begins Stage.idle Stage.check_load
  again :
      (is_async : Bool) (context : ℕ)
      → Begins (Stage.is_initialized context) (Stage.begin_load is_async)
  succeeds :
      (is_async : Bool) (context : ℕ)
      → context % 4 ≡ 0
      → Begins (Stage.initializes is_async) (
          Stage.complete_load
            (record { mark_failed = false; is_async = is_async; context_value = context }))
  gives_up :
      Begins
        (Stage.initializes false)
        (Stage.complete_load (record { mark_failed = true; is_async = false; context_value = 0 }))

pub record Race : Type 0 where
  pub once : Once
  pub threads : List Stage

pub data Step : Race → Race → Type 0 where
  calls :
      (o : Once) (before after : List Stage) (p q : Stage)
      → Begins p q
      → Step
          (record { once = o; threads = before ++ (p ∷ after) })
          (record { once = o; threads = before ++ (q ∷ after) })
  goes_on :
      (o : Once) (before after : List Stage) (p : Stage)
      → Step
          (record { once = o; threads = before ++ (p ∷ after) })
          (record { once = (operate p o).1; threads = before ++ ((operate p o).0 ∷ after) })

abbrev pub idle_stages : ℕ → List Stage
idle_stages zero = []
idle_stages (suc n) = Stage.idle ∷ idle_stages n

-- `INIT_ONCE_STATIC_INIT`
abbrev pub static_init : Once
static_init = record { ptr = 0; registered = none; states = λ k. new_state; made = 0 }

-- What `n` threads reach from a fresh word, in any order of their operations.
pub data Reach (n : ℕ) : Race → Type 0 where
  start : Reach n (record { once = static_init; threads = idle_stages n })
  later : {s t : Race} → Reach n s → Step s t → Reach n t
