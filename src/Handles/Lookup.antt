-- ===== src/Handles/Lookup.antt =====
-- What `Handles::get` finds of a handle (src/handles.cpp), in terms of the slots.
use wibo.Base.{
  ℕ, ◌-◌, ◌<◌, ◌^◌, ◌≡◌, sym, ap, ◌∙◌, some, none, arith, false, length, get_elem?, get_elem?-bound,
  get_elem?_out,
}
use wibo.Handles.Index.{index_of, make_handle, is_pseudo, make_handle-index_of}
use wibo.Handles.Table.{Entry, Table, entry_at}
use wibo.Handles.Slots.{taken}
use wibo.Handles.World.{lookup}

-- A handle of a vacant slot finds nothing.
pub lookup-vacant : (t : Table) (h : ℕ) → taken t (index_of h) ≡ 0 → lookup t h ≡ none
unfolding lookup
lookup-vacant t h e = ground arith

pub lookup-same :
    (t t' : Table) (k : ℕ)
    → get_elem? t'.slots (index_of k) ≡ get_elem? t.slots (index_of k)
    → lookup t' k ≡ lookup t k
unfolding lookup
lookup-same t t' k e = ground arith

pub lookup-full :
    (t : Table) (h p : ℕ) (e : Entry)
    → 0 < h
    → is_pseudo h ≡ false
    → get_elem? t.slots (index_of h) ≡ some e
    → e.obj ≡ some p
    → lookup t h ≡ some (p, e)
unfolding lookup
lookup-full t h p e n s at full = ground arith

-- Only the slot of its index says what a handle finds.
pub lookup-slot :
    (t : Table) (h p : ℕ) (e : Entry)
    → lookup t h ≡ some (p, e)
    → (get_elem? t.slots (index_of h) ≡ some e) × (e.obj ≡ some p) × (is_pseudo h ≡ false) × (0 < h)
unfolding lookup
lookup-slot t h p e f = ground arith

-- The index of a null or misaligned handle lies past any table, so the test for `NO_HANDLE` that
-- `get` makes, and the other members leave out, changes nothing.
pub entry_at-eq-lookup :
    (t : Table) (h : ℕ) → length t.slots < 2 ^ 29 → is_pseudo h ≡ false → entry_at t h ≡ lookup t h
unfolding lookup index_of
entry_at-eq-lookup t h room n = ground (arith, get_elem?_out t.slots (2 ^ 32 - 1))

-- Two handles of one slot are one handle.
pub index_of_injective :
    (t : Table) (h k p : ℕ) (e : Entry)
    → length t.slots < 2 ^ 29
    → h < 2 ^ 32
    → k < 2 ^ 32
    → lookup t h ≡ some (p, e)
    → index_of k ≡ index_of h
    → k ≡ h
index_of_injective t h k p e room bh bk f q =
    let small : index_of h < 2 ^ 29 - 1 =
      omega (arith, get_elem?-bound t.slots (index_of h) (lookup-slot t h p e f).0) in
    sym (make_handle-index_of k bk (rw q small))
    ∙ ap make_handle q
    ∙ make_handle-index_of h bh small
