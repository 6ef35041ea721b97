-- ===== src/Handles/Naming.antt =====
-- What `Namespace` of src/handles.cpp promises: its three operations, insert, remove and get, as
-- those of a map.
use wibo.Base.{
  ℕ, ◌≡◌, inl, inr, refl, ap, Bool, true, false, not, ◌&&◌, [], ◌∷◌, Option, none, some, arith,
  ◌==◌, if◌then◌else◌, Option-cases, Bool-cases,
}
use wibo.Handles.Names.{
  Name, Names, NameEntry, name_eq, name_eq_iff, find_name, insert_name, remove_name, get_name,
}

abbrev is_named : Name → Bool
is_named [] = false
is_named (c ∷ n) = true

abbrev is_object : Option ℕ → Bool
is_object none = false
is_object (some p) = true

insert_fresh :
    (c : ℕ) (n m : Name) (p : ℕ) (permanent : Bool) (t : Names)
    → find_name (c ∷ n) t ≡ none
    → get_name m (insert_name (c ∷ n) (some p) permanent t).1 ≡ (
        if (insert_name (c ∷ n) (some p) permanent t).0 && name_eq (c ∷ n) m
        then some p
        else get_name m t)
unfolding insert_name get_name
insert_fresh c n [] p permanent t f = ground arith
insert_fresh c n (d ∷ m) p permanent t f = ground arith

-- `insert` succeeds exactly for a name that is not empty and not there, with an object. Then that name
-- finds the object and every other name finds what it found; otherwise nothing changes.
pub insert_name-get_name :
    (n m : Name) (obj : Option ℕ) (permanent : Bool) (t : Names)
    → let (inserted, t') = insert_name n obj permanent t in
      (inserted ≡ (is_named n && is_object obj && not (is_object (get_name n t))))
      × (get_name m t' ≡ (if inserted && name_eq n m then obj else get_name m t))
      × (inserted ≡ false → t' ≡ t)
unfolding insert_name get_name
insert_name-get_name [] m obj permanent t = (refl, refl, λ _. refl)
insert_name-get_name (c ∷ n) m none permanent t = (refl, refl, λ _. refl)
insert_name-get_name (c ∷ n) m (some p) permanent t = elim (Option-cases (find_name (c ∷ n) t)) [
  | inl f ↦ (ground arith, insert_fresh c n m p permanent t f, λ e. ground arith)
  | inr (x, f) ↦ (ground arith, ground arith, λ e. ground arith)
]

-- The entries that `remove` may take for an object.
abbrev pub removable : ℕ → NameEntry → Bool
removable p e = (e.obj == p) && not e.permanent

abbrev pub kept_entry : ℕ → NameEntry → Option NameEntry
kept_entry p e = if removable p e then none else some e

-- No name stands twice in the table, and none of it stands for `p` that `remove` may take.
abbrev pub Absent : ℕ → Names → Type 0
Absent p [] = Unit {0}
Absent p ((n, e) ∷ t) = (removable p e ≡ false) × Absent p t

-- Each name stands once in the table, as in any map, and one at most is the object's to remove.
abbrev pub Once : ℕ → Names → Type 0
Once p [] = Unit {0}
Once p ((n, e) ∷ t) = (find_name n t ≡ none) × (removable p e ≡ true → Absent p t) × Once p t

find_name-Absent :
    (p : ℕ) (m : Name) (t : Names)
    → Absent p t
    → find_name m t ≡ elim (find_name m t) [ none ↦ none | some e ↦ kept_entry p e ]
find_name-Absent p m [] a = refl
find_name-Absent p m ((n, e) ∷ t) a = elim (Bool-cases (name_eq n m)) [
  | inl y ↦ ground arith
  | inr k ↦ rw k (find_name-Absent p m t a.1)
]

-- `remove` takes away the name of an object, and no other name and no permanent one.
pub find_name-remove_name :
    (p : ℕ) (m : Name) (t : Names)
    → Once p t
    → find_name m (remove_name p t) ≡ elim (find_name m t) [ none ↦ none | some e ↦ kept_entry p e ]
unfolding remove_name
find_name-remove_name p m [] o = refl
find_name-remove_name p m ((n, e) ∷ t) o = elim (Bool-cases (removable p e)) [
  | inl y ↦ elim (Bool-cases (name_eq n m)) [
    | inl same ↦
        let q : n ≡ m = (name_eq_iff n m).0 same in ground (arith, o.0, ap (λ x. find_name x t) q)
    | inr other ↦ rw (y, other) (find_name-Absent p m t (o.1 y))
  ]
  | inr k ↦ elim (Bool-cases (name_eq n m)) [
    | inl same ↦ ground arith
    | inr other ↦ rw (k, other) (find_name-remove_name p m t o.2)
  ]
]
