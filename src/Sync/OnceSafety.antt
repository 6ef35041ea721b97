-- ===== src/Sync/OnceSafety.antt =====
-- One initialiser at a time, and one context for all.
use wibo.Base.{ℕ, ◌+◌, ◌%◌, ◌≤◌, ◌≡◌, ◌⊎◌, arith, Bool, true, false, ◌==◌, ◌&&◌, if◌then◌else◌}
use wibo.Base.Maps.{put}
use wibo.Sync.Once.{Once, Completion, Stage, operate}

abbrev pub sync_part : Completion → ℕ
sync_part c = if c.is_async then 0 else 1

-- The thread is the one to initialise, synchronously.
abbrev pub initializer : Stage → ℕ
initializer (Stage.insert_state k) = 1
initializer (Stage.initializes is_async) = if is_async then 0 else 1
initializer (Stage.complete_load c) = sync_part c
initializer (Stage.find_complete c) = sync_part c
initializer (Stage.swap_complete c k) = sync_part c
initializer p = 0

-- The context is not the one in the word.
abbrev pub differs : ℕ → ℕ → ℕ
differs v context = if context % 4 == 0 then (if v == context + 2 then 0 else 1) else 1

abbrev pub odd_context : Completion → ℕ
odd_context c =
    if c.context_value % 4 == 0 then (if c.mark_failed && c.is_async then 1 else 0) else 1

-- An asynchronous initialiser needs the word to be 3 or completed.
abbrev pub not_async : ℕ → Bool → ℕ
not_async v is_async = if is_async then (if v == 3 then 0 else if v % 4 == 2 then 0 else 1) else 0

-- What a thread's own part of the invariant says is false, for this word.
abbrev pub wrong : ℕ → Stage → ℕ
wrong v (Stage.initializes is_async) = not_async v is_async
wrong v (Stage.complete_load c) = odd_context c + not_async v c.is_async
wrong v (Stage.find_complete c) =
    odd_context c + not_async v c.is_async + (if c.is_async then 1 else 0)
wrong v (Stage.swap_complete c k) =
    odd_context c + not_async v c.is_async + (if c.is_async then 1 else 0)
wrong v (Stage.swap_async_complete c) =
    odd_context c + not_async v c.is_async + (if c.is_async then 0 else 1)
wrong v (Stage.fill_state c k) =
    odd_context c + (if c.mark_failed then 0 else differs v c.context_value)
wrong v (Stage.is_initialized context) = differs v context
wrong v p = 0

-- The word is 0, 1, 3 or completed.
abbrev pub Shape : ℕ → Type 0
Shape v = (v ≡ 0) ⊎ ((v ≡ 1) ⊎ ((v ≡ 3) ⊎ (v % 4 ≡ 2)))

abbrev pub Agree : Once → Type 0
Agree o = (k : ℕ) → (o.states k).success ≡ true → differs o.ptr (o.states k).context ≡ 0

-- An initialiser only while the word is 1.
abbrev pub Sole : ℕ → ℕ → Type 0
Sole v s = (s ≡ 0) ⊎ ((s ≡ 1) × (v ≡ 1))

abbrev pub Moves : ℕ → ℕ → Type 0
Moves v v' = (v' ≡ v) ⊎ (((v ≡ 0) ⊎ (v ≡ 1)) ⊎ ((v ≡ 3) × (v' % 4 ≡ 2)))

pub operate-keeps :
    (p : Stage) (o : Once) (s : ℕ)
    → Shape o.ptr
    → wrong o.ptr p ≡ 0
    → Sole o.ptr (initializer p + s)
    → Agree o
    → (wrong (operate p o).1.ptr (operate p o).0 ≡ 0)
      × Shape (operate p o).1.ptr
      × Sole (operate p o).1.ptr (initializer (operate p o).0 + s)
      × Moves o.ptr (operate p o).1.ptr
unfolding operate
operate-keeps Stage.idle o s h w e a = ground (arith, h, w, e)
operate-keeps Stage.check_load o s h w e a = ground (arith, h, w, e)
operate-keeps (Stage.begin_load true) o s h w e a = ground (arith, h, w, e)
operate-keeps (Stage.begin_load false) o s h w e a = ground (arith, h, w, e)
operate-keeps Stage.swap_async o s h w e a = ground (arith, h, w, e)
operate-keeps Stage.swap_sync o s h w e a = ground (arith, h, w, e)
operate-keeps (Stage.insert_state k) o s h w e a = ground (arith, h, w, e)
operate-keeps Stage.find_state o s h w e a = ground (arith, h, w, e)
operate-keeps (Stage.wait_state k) o s h w e a = ground (arith, h, w, e, a k)
operate-keeps (Stage.initializes b) o s h w e a = ground (arith, h, w, e)
operate-keeps (Stage.complete_load c) o s h w e a = ground (arith, h, w, e)
operate-keeps (Stage.find_complete c) o s h w e a = ground (arith, h, w, e)
operate-keeps (Stage.swap_complete c k) o s h w e a = ground (arith, h, w, e)
operate-keeps (Stage.swap_async_complete c) o s h w e a = ground (arith, h, w, e)
operate-keeps (Stage.fill_state c k) o s h w e a = ground (arith, h, w, e)
operate-keeps Stage.erase_state o s h w e a = ground (arith, h, w, e)
operate-keeps (Stage.is_initialized x) o s h w e a = ground (arith, h, w, e)
operate-keeps (Stage.fails x) o s h w e a = ground (arith, h, w, e)

differs-Moves : (v v' context : ℕ) → Moves v v' → differs v' context ≤ differs v context
differs-Moves v v' x m = ground (arith, m)

not_async-Moves : (v v' : ℕ) (b : Bool) → Moves v v' → not_async v' b ≤ not_async v b
not_async-Moves v v' b m = ground (arith, m)

-- What another thread relies on is left as it is.
pub wrong-Moves : (v v' : ℕ) → Moves v v' → (p : Stage) → wrong v' p ≤ wrong v p
wrong-Moves v v' m Stage.idle = omega arith
wrong-Moves v v' m Stage.check_load = omega arith
wrong-Moves v v' m (Stage.begin_load b) = omega arith
wrong-Moves v v' m Stage.swap_async = omega arith
wrong-Moves v v' m Stage.swap_sync = omega arith
wrong-Moves v v' m (Stage.insert_state k) = omega arith
wrong-Moves v v' m Stage.find_state = omega arith
wrong-Moves v v' m (Stage.wait_state k) = omega arith
wrong-Moves v v' m (Stage.initializes b) = not_async-Moves v v' b m
wrong-Moves v v' m (Stage.complete_load c) = omega (arith, not_async-Moves v v' c.is_async m)
wrong-Moves v v' m (Stage.find_complete c) = omega (arith, not_async-Moves v v' c.is_async m)
wrong-Moves v v' m (Stage.swap_complete c k) = omega (arith, not_async-Moves v v' c.is_async m)
wrong-Moves v v' m (Stage.swap_async_complete c) = omega (arith, not_async-Moves v v' c.is_async m)
wrong-Moves v v' m (Stage.fill_state c k) = ground (arith, differs-Moves v v' c.context_value m)
wrong-Moves v v' m Stage.erase_state = omega arith
wrong-Moves v v' m (Stage.is_initialized x) = differs-Moves v v' x m
wrong-Moves v v' m (Stage.fails x) = omega arith

pub operate-Agree :
    (p : Stage) (o : Once)
    → wrong o.ptr p ≡ 0
    → Moves o.ptr (operate p o).1.ptr
    → Agree o
    → Agree (operate p o).1
unfolding operate put
operate-Agree Stage.idle o w m a = a
operate-Agree Stage.check_load o w m a = a
operate-Agree (Stage.begin_load b) o w m a = a
operate-Agree Stage.swap_async o w m a = λ j e. let h = a j in ground (arith, h, w, m, e)
operate-Agree Stage.swap_sync o w m a = λ j e. let h = a j in ground (arith, h, w, m, e)
operate-Agree (Stage.insert_state k) o w m a = λ j e. a j e
operate-Agree Stage.find_state o w m a = λ j e. let h = a j in ground (arith, h, e)
operate-Agree (Stage.wait_state k) o w m a = a
operate-Agree (Stage.initializes b) o w m a = a
operate-Agree (Stage.complete_load c) o w m a = a
operate-Agree (Stage.find_complete c) o w m a = λ j e. let h = a j in ground (arith, h, e)
operate-Agree (Stage.swap_complete c k) o w m a = λ j e. let h = a j in ground (arith, h, w, m, e)
operate-Agree (Stage.swap_async_complete c) o w m a =
    λ j e. let h = a j in ground (arith, h, w, m, e)
operate-Agree (Stage.fill_state c k) o w m a = λ j e. let h = a j in ground (arith, h, w, m, e)
operate-Agree Stage.erase_state o w m a = λ j e. a j e
operate-Agree (Stage.is_initialized x) o w m a = a
operate-Agree (Stage.fails x) o w m a = a
