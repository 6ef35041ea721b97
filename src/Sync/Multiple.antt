-- ===== src/Sync/Multiple.antt =====
-- `WaitForMultipleObjects` of dll/kernel32/synchapi.cpp, and the waiters of an object (src/handles.cpp).
use wibo.Base.{
  ℕ, suc, ◌+◌, ◌-◌, List, [], ◌∷◌, ◌++◌, Bool, false, ◌&&◌, ◌||◌, Option, none, some, ltb, leb,
  ◌==◌, if◌then◌else◌, length, get_elem?,
}
use wibo.Base.Maps.{put}
use wibo.Sync.Waitables.{
  Waitable, wait_for_single_object, wait_object_0, wait_abandoned, wait_timeout, wait_failed,
}
use wibo.Sync.Blocks.{new_block, handle_signals, outcome}

-- `Waiter`: the block that waits, as its address, and the index of the object there.
abbrev pub Waiter : Type 0
Waiter = ℕ × ℕ

unfoldable pub register_waiter : ℕ → ℕ → List Waiter → List Waiter
register_waiter context index waiters = waiters ++ ((context, index) ∷ [])

unfoldable pub unregister_waiter : ℕ → List Waiter → List Waiter
unregister_waiter context [] = []
unregister_waiter context ((c, i) ∷ waiters) =
    let rest = unregister_waiter context waiters in if c == context then rest else (c, i) ∷ rest

abbrev pub maximum_wait_objects : ℕ
maximum_wait_objects = 64

-- The objects by address.
abbrev pub Store : Type 0
Store = ℕ → Waitable

-- `signaled`
abbrev pub is_signaled : Waitable → Bool
is_signaled (Waitable.an_event e) = e.signaled
is_signaled (Waitable.a_semaphore s) = s.signaled
is_signaled (Waitable.a_mutex m) = m.signaled
is_signaled (Waitable.a_thread t) = t.signaled
is_signaled (Waitable.a_process p) = p.signaled

-- `abandoned`, which only a mutex has.
abbrev pub is_abandoned : Waitable → Bool
is_abandoned (Waitable.a_mutex m) = m.abandoned
is_abandoned w = false

-- The objects of the handles, if each names one to wait for.
unfoldable pub resolve_all : List (Option ℕ) → Option (List ℕ)
resolve_all [] = some []
resolve_all (none ∷ handles) = none
resolve_all (some p ∷ handles) = elim (resolve_all handles) [
  | none ↦ none
  | some ps ↦ some (p ∷ ps)
]

-- The signals that the second loop notes: of the objects from index `i` on that are signaled.
unfoldable pub initial_signals : Store → ℕ → List ℕ → List (ℕ × Bool)
initial_signals store i [] = []
initial_signals store i (p ∷ objects) =
    let rest = initial_signals store (suc i) objects in
    if is_signaled (store p) then (i, is_abandoned (store p)) ∷ rest else rest

-- The lambda `consume`.
unfoldable pub consume : ℕ → List ℕ → ℕ → Store → Store
consume self objects index store = elim (get_elem? objects index) [
  | none ↦ store
  | some p ↦ put store p (wait_for_single_object self (store p)).1
]

-- `consume` for the indices from `i` on, as many as the list has.
unfoldable pub consume_all : ℕ → List ℕ → ℕ → List ℕ → Store → Store
consume_all self objects i [] store = store
consume_all self objects i (_ ∷ rest) store =
    consume_all self objects (suc i) rest (consume self objects i store)

-- What is consumed for a result.
unfoldable pub consume_result : ℕ → Bool → List ℕ → ℕ → Store → Store
consume_result self wait_all objects r store =
    let one_abandoned =
      if leb wait_abandoned r && ltb r (wait_abandoned + length objects)
      then consume self objects (r - wait_abandoned) store
      else store in
    if wait_all
    then (if r == wait_object_0 then consume_all self objects 0 objects store else one_abandoned)
    else if ltb r (wait_object_0 + length objects)
    then consume self objects (r - wait_object_0) store
    else one_abandoned

-- `WaitForMultipleObjects` by the thread `self`, for the handles' objects: `before` are the objects when they
-- are asked first, `arrived` the signals that come in before the time is up, and `now` the objects then.
unfoldable pub wait_for_multiple_objects :
    ℕ → Bool → List (Option ℕ) → Store → List (ℕ × Bool) → Store → ℕ × Store
wait_for_multiple_objects self wait_all handles before arrived now =
    if (length handles == 0) || ltb maximum_wait_objects (length handles)
    then (wait_failed, now)
    else elim (resolve_all handles) [
      | none ↦ (wait_failed, now)
      | some objects ↦
          elim (outcome (
            handle_signals (initial_signals before 0 objects ++ arrived)
              (new_block wait_all (length handles)))) [
                | none ↦ (wait_timeout, now)
                | some r ↦ (r, consume_result self wait_all objects r now)
              ]
    ]
