-- ===== src/Sync/Blocks.antt =====
-- The wait blocks of dll/kernel32/synchapi.cpp, which collect the signals that a wait for several objects
-- receives.
use wibo.Base.{
  ℕ, zero, suc, ◌+◌, List, [], ◌∷◌, Bool, true, false, Option, none, some, if◌then◌else◌, get_elem?,
  set,
}
use wibo.Sync.Waitables.{wait_object_0, wait_abandoned, wait_timeout}

-- `WaitBlock`
pub record Block : Type 0 where
  pub wait_all : Bool
  pub satisfied : List Bool
  pub completed : Bool
  pub result : ℕ

abbrev pub all_false : ℕ → List Bool
all_false zero = []
all_false (suc n) = false ∷ all_false n

abbrev pub all_true : List Bool → Bool
all_true [] = true
all_true (b ∷ bs) = if b then all_true bs else false

-- Its constructor.
unfoldable pub new_block : Bool → ℕ → Block
new_block wait_all count = record {
  wait_all = wait_all;
  satisfied = all_false count;
  completed = false;
  result = wait_timeout;
}

-- The result of a signal where one is enough.
abbrev pub signal_result : ℕ → Bool → ℕ
signal_result index abandoned = (if abandoned then wait_abandoned else wait_object_0) + index

-- What a block that is not completed becomes once the object at `index` is satisfied.
unfoldable pub satisfy : ℕ → Bool → Block → Block
satisfy index abandoned b =
    if b.wait_all
    then if abandoned
      then record b { result = wait_abandoned + index; completed = true }
      else if all_true b.satisfied
      then record b { result = wait_object_0; completed = true }
      else b
    else record b { result = signal_result index abandoned; completed = true }

-- `handleSignal` on the block itself.
unfoldable pub handle_signal : ℕ → Bool → Block → Block
handle_signal index abandoned b = elim (get_elem? b.satisfied index) [
  | none ↦ b
  | some done ↦
      if done
      then b
      else if b.completed
      then b
      else satisfy index abandoned (record b { satisfied = set b.satisfied index true })
]

-- Whether `handleSignal` takes the block from the object's waiters: an index out of range returns early;
-- otherwise the object is satisfied by then, unless the block was completed before.
unfoldable pub unregisters : ℕ → Bool → Block → Bool
unregisters index from_waiter b = elim (get_elem? b.satisfied index) [
  | none ↦ false
  | some done ↦
      if from_waiter
      then true
      else if b.wait_all
      then (if done then true else if b.completed then false else true)
      else true
]

-- Signals one after another.
unfoldable pub handle_signals : List (ℕ × Bool) → Block → Block
handle_signals [] b = b
handle_signals ((index, abandoned) ∷ signals) b =
    handle_signals signals (handle_signal index abandoned b)

-- `isCompleted`
unfoldable pub outcome : Block → Option ℕ
outcome b = if b.completed then some b.result else none
