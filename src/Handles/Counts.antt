-- ===== src/Handles/Counts.antt =====
-- The two reference counts of src/handles.h against what refers to an object: the slots that hold it
-- and the pins outside the table.
use wibo.Base.{
  ℕ, zero, suc, ◌+◌, ◌≤◌, ◌<◌, ◌^◌, ◌≡◌, refl, List, [], ◌∷◌, ◌++◌, Option, none, some, arith, ◌==◌,
  if◌then◌else◌, length, get_elem?, set,
}
use wibo.Handles.Objects.{Object}
use wibo.Handles.Table.{Entry, Table, blank, pick_index, park}
use wibo.Handles.Slots.{Inv, park-Parked}
use wibo.Handles.World.{World}

abbrev pub held_by : ℕ → Entry → ℕ
held_by p e = elim e.obj [ none ↦ 0 | some q ↦ if q == p then 1 else 0 ]

-- The slots that hold an object.
abbrev pub holders : ℕ → List Entry → ℕ
holders p [] = 0
holders p (e ∷ es) = held_by p e + holders p es

pub holders-append_blank : (p : ℕ) (es : List Entry) → holders p (es ++ (blank ∷ [])) ≡ holders p es
holders-append_blank p [] = refl
holders-append_blank p (e ∷ es) = omega (arith, holders-append_blank p es)

pub holders-set :
    (p : ℕ) (es : List Entry) (i : ℕ) (e e' : Entry)
    → get_elem? es i ≡ some e
    → holders p (set es i e') + held_by p e ≡ holders p es + held_by p e'
holders-set p [] i e e' h = absurd (ground arith)
holders-set p (x ∷ es) zero e e' h = ground arith
holders-set p (x ∷ es) (suc i) e e' h = omega (arith, holders-set p es i e e' h)

pub holders-pick_index : (p : ℕ) (t : Table) → holders p (pick_index t).1.slots ≡ holders p t.slots
unfolding pick_index
holders-pick_index p t = ground (arith, holders-append_blank p t.slots)

pub holders-park : (p idx : ℕ) (t : Table) → holders p (park idx t).slots ≡ holders p t.slots
holders-park p idx t = rw ((park-Parked idx t).slots)

pub holders-le-length : (p : ℕ) (es : List Entry) → holders p es ≤ length es
holders-le-length p [] = omega arith
holders-le-length p (e ∷ es) = ground (arith, holders-le-length p es)

pub holders-pos :
    (p : ℕ) (es : List Entry) (i : ℕ) (e : Entry)
    → get_elem? es i ≡ some e
    → e.obj ≡ some p
    → 0 < holders p es
holders-pos p [] i e h f = absurd (ground arith)
holders-pos p (x ∷ es) zero e h f = ground arith
holders-pos p (x ∷ es) (suc i) e h f = omega (arith, holders-pos p es i e h f)

-- One more pin of an object.
abbrev pub bump : ℕ → (ℕ → ℕ) → ℕ → ℕ
bump p pins q = if p == q then pins q + 1 else pins q

-- What the store says of one pointer: a live object counts its `n` pins and its `k` slots, and has
-- one of them; nothing refers to a dead one.
abbrev pub CountedAt : ℕ → ℕ → Option Object → Type 0
CountedAt n k none = n + k ≡ 0
CountedAt n k (some o) =
    (o.pointer_count ≡ n + k) × (o.handle_count ≡ k) × (0 < n + k) × (n + k < 2 ^ 32)

abbrev pub Counted : (ℕ → ℕ) → World → Type 0
Counted pins w = (q : ℕ) → CountedAt (pins q) (holders q w.table.slots) (w.objects q)

-- The invariant of the process: the slots are partitioned, and the counts are exact. So an object
-- lives exactly as long as something refers to it.
pub record IsSound (pins : ℕ → ℕ) (w : World) : Type 0 where
  pub slots : Inv w.table
  pub counts : Counted pins w
