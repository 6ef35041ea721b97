-- ===== src/Handles/Objects.antt =====
-- The kernel objects of src/handles.h: their header, the two reference counts and `detail::ref`,
-- `detail::deref`. A pointer is a number, and the store maps the live ones to their objects.
use wibo.Base.{ℕ, ◌+◌, Option, none, some, ◌==◌, if◌then◌else◌, u32, u32_max}

-- `ObjectType`
pub data Kind : Type 0 where
  file directory mapping process token mutex event semaphore thread heap registry_key : Kind
  named_pipe named_pipe_state : Kind

-- `ObjectFlags`
abbrev pub of_waitable : ℕ
of_waitable = 0x1

abbrev pub of_fs_object : ℕ
of_fs_object = 0x2

abbrev pub of_file : ℕ
of_file = 0x4

-- `ObjectBase`
pub record Object : Type 0 where
  pub kind : Kind
  pub flags : ℕ
  pub pointer_count : ℕ
  pub handle_count : ℕ

-- `none` at a pointer to no live object.
abbrev pub Objects : Type 0
Objects = ℕ → Option Object

abbrev pub update : Objects → ℕ → Option Object → Objects
update os p v q = if p == q then v else os q

-- `detail::ref`; `none` is a use of a dead object.
unfoldable pub ref : ℕ → Objects → Option Objects
ref p os = elim (os p) [
  | none ↦ none
  | some o ↦ some (update os p (some (record o { pointer_count = u32 (o.pointer_count + 1) })))
]

-- `fetch_sub` wraps.
abbrev pub count_down : ℕ → ℕ
count_down n = u32 (n + u32_max)

-- `detail::deref`: the last reference deletes the object.
unfoldable pub deref : ℕ → Objects → Option Objects
deref p os = elim (os p) [
  | none ↦ none
  | some o ↦
      if o.pointer_count == 1
      then some (update os p none)
      else some (update os p (some (record o { pointer_count = count_down o.pointer_count })))
]
