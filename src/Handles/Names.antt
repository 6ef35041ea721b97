-- ===== src/Handles/Names.antt =====
-- `Namespace` of src/handles.h and src/handles.cpp: the named objects. The table is an association
-- list in the order in which it is walked; a name is its list of UTF-16 units.
use wibo.Base.{
  ℕ, List, [], ◌∷◌, Option, none, some, Bool, true, false, not, ◌&&◌, ◌≡◌, ◌↔◌, refl, arith, ◌==◌,
  if◌then◌else◌,
}

-- `Namespace::Entry`
pub record NameEntry : Type 0 where
  pub obj : ℕ
  pub permanent : Bool

abbrev pub Name : Type 0
Name = List ℕ

abbrev pub Names : Type 0
Names = List (Name × NameEntry)

abbrev pub name_eq : Name → Name → Bool
name_eq [] [] = true
name_eq [] (d ∷ n) = false
name_eq (c ∷ m) [] = false
name_eq (c ∷ m) (d ∷ n) = c == d && name_eq m n

pub name_eq_iff : (m n : Name) → (name_eq m n ≡ true) ↔ (m ≡ n)
name_eq_iff [] [] = ((λ _. refl), (λ _. refl))
name_eq_iff [] (d ∷ n) = ((λ h. ground arith), (λ h. ground arith))
name_eq_iff (c ∷ m) [] = ((λ h. ground arith), (λ h. ground arith))
name_eq_iff (c ∷ m) (d ∷ n) =
    ((λ h. ground (arith, (name_eq_iff m n).0)), (λ h. ground (arith, (name_eq_iff m n).1)))

abbrev pub find_name : Name → Names → Option NameEntry
find_name n [] = none
find_name n ((m, e) ∷ t) = if name_eq m n then some e else find_name n t

-- `Namespace::insert`: `try_emplace` keeps what is there. A null object is `none`.
unfoldable pub insert_name : Name → Option ℕ → Bool → Names → Bool × Names
insert_name [] obj permanent t = (false, t)
insert_name (c ∷ n) none permanent t = (false, t)
insert_name (c ∷ n) (some p) permanent t = elim (find_name (c ∷ n) t) [
  | some e ↦ (false, t)
  | none ↦ (true, ((c ∷ n), record { obj = p; permanent = permanent }) ∷ t)
]

-- `Namespace::remove`: the first entry of the object that is not permanent.
unfoldable pub remove_name : ℕ → Names → Names
remove_name p [] = []
remove_name p ((n, e) ∷ t) = if (e.obj == p) && not e.permanent then t else (n, e) ∷ remove_name p t

-- `Namespace::get` without the reference that it takes.
unfoldable pub get_name : Name → Names → Option ℕ
get_name [] t = none
get_name (c ∷ n) t = elim (find_name (c ∷ n) t) [ none ↦ none | some e ↦ some e.obj ]
