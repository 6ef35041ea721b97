-- ===== src/Sync/SectionSums.antt =====
-- What one operation on a critical section keeps.
use wibo.Base.{
  ℕ, zero, suc, ◌+◌, ◌-◌, ◌%◌, ◌^◌, ◌<◌, ◌≡◌, ◌⊎◌, arith, Bool, true, false, none, some, ltb, ◌==◌,
  if◌then◌else◌,
}
use wibo.Sync.Section.{Section, Place, Thread, act, entries}

-- The thread is the owner though its depth is 0.
abbrev pub owns : Place → ℕ
owns Place.set_recursion = 1
owns Place.clear_owner = 1
owns p = 0

-- The thread has the right to the section, though its depth is 0 and it is not the owner.
abbrev claims : Place → ℕ
claims Place.set_owner = 1
claims Place.leave_last = 1
claims Place.signal = 1
claims p = 0

-- The thread has the right to the section though its depth is 0.
abbrev pub held : Place → ℕ
held p = owns p + claims p

-- The thread has the right to the section.
abbrev pub holds : Thread → ℕ
holds t = if ltb 0 t.depth then 1 else held t.place

-- The place asks for depth 0, or for more.
abbrev pub is_outer : Place → Bool
is_outer Place.load_tickets = true
is_outer (Place.wait_tickets _) = true
is_outer (Place.swap_tickets _) = true
is_outer Place.set_owner = true
is_outer Place.set_recursion = true
is_outer Place.clear_owner = true
is_outer Place.leave_last = true
is_outer Place.signal = true
is_outer p = false

abbrev pub is_inner : Place → Bool
is_inner Place.try_count = true
is_inner Place.add_recursion = true
is_inner Place.leave_recursion = true
is_inner Place.leave_one = true
is_inner p = false

-- The thread would take a ticket that is not there.
abbrev pub rash : Place → ℕ
rash (Place.swap_tickets available) = if available == 0 then 1 else 0
rash p = 0

-- What a thread's own part of the invariant says is false, for this owner and recursion count.
abbrev pub wrong : ℕ → ℕ → Thread → ℕ
wrong o r t =
    rash t.place
    + (if ltb 0 t.depth
        then (if is_outer t.place
            then 1
            else if o == t.id
            then (if r == t.depth then 0 else 1)
            else 1)
        else (if is_inner t.place then 1 else if o == t.id then 1 - owns t.place else owns t.place))

abbrev pub same_id : ℕ → Thread → ℕ
same_id i t = if t.id == i then 1 else 0

-- The counts agree with the threads: `l` entries and `h` threads with the right.
abbrev pub Counts : Section → ℕ → ℕ → Type 0
Counts c l h =
    (c.lock_count ≡ (l + (2 ^ 32 - 1)) % 2 ^ 32) × (h + (c.tickets + (if l == 0 then 1 else 0)) ≡ 1)

-- What the operation does to the others, of which `h` have the right: nothing they could see, or there are none
-- with the right, and the owner is as before, the thread or none.
abbrev pub Quiet : Thread → Section → Section → ℕ → Type 0
Quiet t c c' h =
    ((c'.owning_thread ≡ c.owning_thread) × (c'.recursion_count ≡ c.recursion_count))
    ⊎ ((h ≡ 0)
        × ((c'.owning_thread ≡ c.owning_thread)
            ⊎ ((c'.owning_thread ≡ t.id) ⊎ (c'.owning_thread ≡ 0))))

abbrev pub Acts : Thread → Section → ℕ → ℕ → Thread × Section → Type 0
Acts t c l h (t', c') =
    (t'.id ≡ t.id)
    × (wrong c'.owning_thread c'.recursion_count t' ≡ 0)
    × Counts c' (entries t' + l) (holds t' + h)
    × Quiet t c c' h

abbrev pub Acted : Thread → Section → ℕ → ℕ → Type 0
Acted t c l h =
    0 < t.id
    → entries t + l < 2 ^ 31
    → entries (act t t.place c).0 + l < 2 ^ 31
    → wrong c.owning_thread c.recursion_count t ≡ 0
    → Counts c (entries t + l) (holds t + h)
    → Acts t c l h (act t t.place c)

-- Every operation keeps the counts and the thread's own part, and is quiet.
pub act-Acts :
    (i d : ℕ) (p : Place) (c : Section) (l h : ℕ)
    → Acted (record { id = i; depth = d; place = p }) c l h
unfolding act
act-Acts i d Place.resting c l h z few few' w (e, m) = ground (arith, z, few, few', w, e, m)
act-Acts i d (Place.try_swap k) c l h z few few' w (e, m) = ground (arith, z, few, few', w, e, m)
act-Acts i d (Place.try_owner none) c l h z few few' w (e, m) =
    ground (arith, z, few, few', w, e, m)
act-Acts i d (Place.try_owner (some k)) c l h z few few' w (e, m) =
    ground (arith, z, few, few', w, e, m)
act-Acts i d Place.try_count c l h z few few' w (e, m) = ground (arith, z, few, few', w, e, m)
act-Acts i d (Place.spin_count k) c l h z few few' w (e, m) = ground (arith, z, few, few', w, e, m)
act-Acts i d (Place.spin_owner zero) c l h z few few' w (e, m) =
    ground (arith, z, few, few', w, e, m)
act-Acts i d (Place.spin_owner (suc zero)) c l h z few few' w (e, m) =
    ground (arith, z, few, few', w, e, m)
act-Acts i d (Place.spin_owner (suc (suc k))) c l h z few few' w (e, m) =
    ground (arith, z, few, few', w, e, m)
act-Acts i d Place.enter_count c l h z few few' w (e, m) = ground (arith, z, few, few', w, e, m)
act-Acts i d Place.enter_owner c l h z few few' w (e, m) = ground (arith, z, few, few', w, e, m)
act-Acts i d Place.load_tickets c l h z few few' w (e, m) = ground (arith, z, few, few', w, e, m)
act-Acts i d (Place.wait_tickets a) c l h z few few' w (e, m) =
    ground (arith, z, few, few', w, e, m)
act-Acts i d (Place.swap_tickets a) c l h z few few' w (e, m) =
    ground (arith, z, few, few', w, e, m)
act-Acts i d Place.set_owner c l h z few few' w (e, m) = ground (arith, z, few, few', w, e, m)
act-Acts i d Place.set_recursion c l h z few few' w (e, m) = ground (arith, z, few, few', w, e, m)
act-Acts i d Place.add_recursion c l h z few few' w (e, m) = ground (arith, z, few, few', w, e, m)
act-Acts i d Place.leave_recursion c l h z few few' w (e, m) = ground (arith, z, few, few', w, e, m)
act-Acts i d Place.leave_one c l h z few few' w (e, m) = ground (arith, z, few, few', w, e, m)
act-Acts i d Place.clear_owner c l h z few few' w (e, m) = ground (arith, z, few, few', w, e, m)
act-Acts i d Place.leave_last c l h z few few' w (e, m) = ground (arith, z, few, few', w, e, m)
act-Acts i d Place.signal c l h z few few' w (e, m) = ground (arith, z, few, few', w, e, m)
