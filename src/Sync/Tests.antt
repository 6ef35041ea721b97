-- ===== src/Sync/Tests.antt =====
-- Runs of the synchronisation objects.
use Prim.{tt}
use wibo.Base.{
  ℕ, ◌≡◌, refl, arith, List, [], ◌∷◌, map, true, false, none, some, ◌==◌, if◌then◌else◌,
}
use wibo.Base.Int.{pos}
use wibo.Sync.Srw.{Position, Begins, Srw, proceed}
use wibo.Sync.SrwSafety.{Encodes, Reach-Encodes}
use wibo.Sync.Section.{Section, Place, Thread, Scene, act, fresh_section}
use wibo.Sync.SectionSafety.{IsGuarded, Reach-IsGuarded}
use wibo.Sync.Waitables.{Waitable, Semaphore, create_event, create_semaphore}
use wibo.Sync.Mutexes.{MutexCall, created, after_calls, IsExclusive, after_calls-IsExclusive}
use wibo.Sync.Semaphores.{
  SemaphoreCall, IsStocked, after_semaphore_calls, after_semaphore_calls-IsStocked,
}
use wibo.Sync.Blocks.{new_block, handle_signals, outcome}
use wibo.Sync.Signals.{handle_signals-first_signal, first_signal}
use wibo.Sync.Collecting.{plain, all_below, is_among, handle_signals-all_below}
use wibo.Sync.Multiple.{Store, wait_for_multiple_objects}
use wibo.Sync.Taking.{Polled, wait_for_multiple_objects-Polled}
use wibo.Base.Maps.{put}
use wibo.Sync.Once.{Once, Completion, Stage, Race, operate, static_init, new_state, filled_state}
use wibo.Sync.OnceHistory.{IsOnce, Reach-IsOnce}

-- Of two threads, the first holds the lock alone and the second is about to wait.
abbrev contended : Srw
contended = record { value = 1; threads = Position.writing ∷ (Position.load_shared ∷ []) }

contended-Reach : wibo.Sync.Srw.Reach 2 contended
unfolding proceed
contended-Reach =
    let one : List Position = Position.idle ∷ [] in
    let s1 = wibo.Sync.Srw.Reach.later wibo.Sync.Srw.Reach.start (
      wibo.Sync.Srw.Step.begins 0 [] one Position.idle Position.swap_exclusive
        Begins.acquire_exclusive) in
    let s2 =
      wibo.Sync.Srw.Reach.later s1
        (wibo.Sync.Srw.Step.goes_on false 0 [] one Position.swap_exclusive) in
    wibo.Sync.Srw.Reach.later s2 (
      wibo.Sync.Srw.Step.begins 1 (Position.writing ∷ []) [] Position.idle Position.load_shared
        Begins.acquire_shared)

Reach-Encodes_example : Encodes 1 0 1
Reach-Encodes_example = Reach-Encodes 2 (omega arith) contended-Reach

abbrev at : ℕ → ℕ → Place → Thread
at i d p = record { id = i; depth = d; place = p }

-- The thread 7 has entered, and the thread 9 has found it there and waits for a ticket.
abbrev waiting : Scene
waiting = record {
  section = record { lock_count = 1; recursion_count = 1; owning_thread = 7; tickets = 0 };
  threads =
      record { id = 7; depth = 1; place = Place.resting }
      ∷ (record { id = 9; depth = 0; place = Place.load_tickets } ∷ []);
}

waiting-Reach : wibo.Sync.Section.Reach 0 (7 ∷ (9 ∷ [])) waiting
unfolding act
waiting-Reach =
    let c0 = fresh_section in
    let c1 = record c0 { lock_count = 0 } in
    let c2 = record c1 { owning_thread = 7 } in
    let c3 = record c2 { recursion_count = 1 } in
    let c4 = record c3 { lock_count = 1 } in
    let other : List Thread = at 9 0 Place.resting ∷ [] in
    let inside : List Thread = at 7 1 Place.resting ∷ [] in
    let s1 =
      wibo.Sync.Section.Reach.later wibo.Sync.Section.Reach.start
        (wibo.Sync.Section.Step.begins c0 [] other 7 0 Place.enter_count
          (wibo.Sync.Section.Begins.enters 0))
        (omega arith) in
    let s2 =
      wibo.Sync.Section.Reach.later s1
        (wibo.Sync.Section.Step.goes_on c0 [] other (at 7 0 Place.enter_count)) (omega arith) in
    let s3 =
      wibo.Sync.Section.Reach.later s2
        (wibo.Sync.Section.Step.goes_on c1 [] other (at 7 0 Place.set_owner)) (omega arith) in
    let s4 =
      wibo.Sync.Section.Reach.later s3
        (wibo.Sync.Section.Step.goes_on c2 [] other (at 7 0 Place.set_recursion)) (omega arith) in
    let s5 =
      wibo.Sync.Section.Reach.later s4
        (wibo.Sync.Section.Step.begins c3 inside [] 9 0 Place.enter_count
          (wibo.Sync.Section.Begins.enters 0))
        (omega arith) in
    let s6 =
      wibo.Sync.Section.Reach.later s5
        (wibo.Sync.Section.Step.goes_on c3 inside [] (at 9 0 Place.enter_count)) (omega arith) in
    wibo.Sync.Section.Reach.later s6
      (wibo.Sync.Section.Step.goes_on c4 inside [] (at 9 0 Place.enter_owner)) (omega arith)

Reach-IsGuarded_example : IsGuarded waiting
Reach-IsGuarded_example = Reach-IsGuarded (λ i. ground arith) refl waiting-Reach

abbrev two_waits : List MutexCall
two_waits = MutexCall.releases 4 ∷ (MutexCall.waits 5 ∷ (MutexCall.waits 4 ∷ []))

after_calls-IsExclusive_example : IsExclusive (after_calls two_waits (created 4 false))
after_calls-IsExclusive_example = after_calls-IsExclusive two_waits 4 false (omega arith)

abbrev three_of_five : Semaphore
three_of_five = record { count = 3; max_count = 5; signaled = false }

three_are_created : create_semaphore (pos 3) (pos 5) ≡ some three_of_five
unfolding create_semaphore
three_are_created = refl

abbrev some_calls : List SemaphoreCall
some_calls =
    SemaphoreCall.posts (pos 9) ∷ (SemaphoreCall.posts (pos 2) ∷ (SemaphoreCall.takes ∷ []))

after_semaphore_calls-IsStocked_example :
    IsStocked 3 5 (
      after_semaphore_calls some_calls
        (record { semaphore = three_of_five; taken = 0; posted = 0 }))
after_semaphore_calls-IsStocked_example =
    after_semaphore_calls-IsStocked 3 5 three_of_five some_calls three_are_created

handle_signals-first_signal_example :
    outcome (handle_signals ((7, false) ∷ ((1, true) ∷ ((0, false) ∷ []))) (new_block false 2))
    ≡ first_signal 2 ((7, false) ∷ ((1, true) ∷ ((0, false) ∷ [])))
handle_signals-first_signal_example =
    handle_signals-first_signal 2 ((7, false) ∷ ((1, true) ∷ ((0, false) ∷ [])))

handle_signals-all_below_example :
    outcome (handle_signals (plain (1 ∷ (1 ∷ (0 ∷ [])))) (new_block true 2))
    ≡ (if all_below 2 (is_among (1 ∷ (1 ∷ (0 ∷ [])))) then some 0 else none)
handle_signals-all_below_example = handle_signals-all_below 2 (1 ∷ (1 ∷ (0 ∷ []))) (omega arith)

-- Two events, of which the second is set.
abbrev events : Store
events p = Waitable.an_event (create_event false (p == 20))

abbrev both_events : List ℕ
both_events = 10 ∷ (20 ∷ [])

wait_for_multiple_objects-Polled_example :
    (r : ℕ) × (store' : Store) × (wait_for_multiple_objects 4 false
        (map some both_events)
        events
        []
        events
      ≡ (r, store'))
    × Polled 4 both_events events r store'
wait_for_multiple_objects-Polled_example =
    wait_for_multiple_objects-Polled 4 both_events events (λ p. refl) (λ p. tt) (omega arith)
      (omega arith)

abbrev eight : Completion
eight = record { mark_failed = false; is_async = false; context_value = 8 }

-- The first of two threads has initialised with the context 8, and the second was told so.
abbrev after_first : Once
after_first = record {
  ptr = 10;
  registered = none;
  states = put (put (λ k. new_state) 0 new_state) 0 (filled_state eight);
  made = 1;
}

abbrev told : Race
told = record { once = after_first; threads = Stage.idle ∷ (Stage.is_initialized 8 ∷ []) }

told-Reach : wibo.Sync.Once.Reach 2 told
unfolding operate
told-Reach =
    let others : List Stage = Stage.idle ∷ [] in
    let call = λ (o : Once) (p q : Stage) (b : wibo.Sync.Once.Begins p q).
      wibo.Sync.Once.Step.calls o [] others p q b in
    let go = λ (o : Once) (p : Stage). wibo.Sync.Once.Step.goes_on o [] others p in
    let o0 = static_init in
    let o1 = (operate Stage.swap_sync o0).1 in
    let o2 = (operate (Stage.insert_state 0) o1).1 in
    let o3 = (operate (Stage.swap_complete eight 0) o2).1 in
    let o4 = (operate (Stage.fill_state eight 0) o3).1 in
    let r0 =
      wibo.Sync.Once.Reach.later wibo.Sync.Once.Reach.start
        (call o0 Stage.idle (Stage.begin_load false) (wibo.Sync.Once.Begins.begins false)) in
    let r1 = wibo.Sync.Once.Reach.later r0 (go o0 (Stage.begin_load false)) in
    let r2 = wibo.Sync.Once.Reach.later r1 (go o0 Stage.swap_sync) in
    let r3 = wibo.Sync.Once.Reach.later r2 (go o1 (Stage.insert_state 0)) in
    let r4 = wibo.Sync.Once.Reach.later r3 (
      call o2 (Stage.initializes false) (Stage.complete_load eight)
        (wibo.Sync.Once.Begins.succeeds false 8 refl)) in
    let r5 = wibo.Sync.Once.Reach.later r4 (go o2 (Stage.complete_load eight)) in
    let r6 = wibo.Sync.Once.Reach.later r5 (go o2 (Stage.find_complete eight)) in
    let r7 = wibo.Sync.Once.Reach.later r6 (go o2 (Stage.swap_complete eight 0)) in
    let r8 = wibo.Sync.Once.Reach.later r7 (go o3 (Stage.fill_state eight 0)) in
    let r9 = wibo.Sync.Once.Reach.later r8 (go o4 Stage.erase_state) in
    let r10 = wibo.Sync.Once.Reach.later r9 (
      wibo.Sync.Once.Step.calls after_first others [] Stage.idle (Stage.begin_load false)
        (wibo.Sync.Once.Begins.begins false)) in
    wibo.Sync.Once.Reach.later r10
      (wibo.Sync.Once.Step.goes_on after_first others [] (Stage.begin_load false))

Reach-IsOnce_example : IsOnce told
Reach-IsOnce_example = Reach-IsOnce told-Reach
