-- ===== src/Handles/Duplicate.antt =====
-- `Handles::duplicateTo`.
use wibo.Base.{
  ℕ, ◌+◌, ◌-◌, ◌*◌, ◌/◌, ◌%◌, min, ◌<◌, ◌^◌, ◌≡◌, ◌≢◌, inl, inr, refl, sym, ap, subst, ◌∙◌, Bool,
  true, false, ◌&&◌, Option, none, some, arith, ◌==◌, if◌then◌else◌, length, Option-cases,
  Bool-cases,
}
use Prim.Native.Nat.{bit_and}
use wibo.Base.Bits.{test_bit, test_bit-bit_and, bit_and-div, bit_and-le_right}
use wibo.Handles.Objects.{Object, Objects, update, deref, count_down}
use mathlib.Core.Bool.{false≢true}
use wibo.Handles.Table.{Entry, Table}
use wibo.Handles.Counts.{holders, bump, IsSound}
use wibo.Handles.World.{
  World, lookup, release, has_flag, handle_flag_protect_from_close, duplicate_close_source,
  effective_access, inherit_flags, drop_pin, copy_entry, duplicate_entry, duplicate_to,
}
use wibo.Handles.Lookup.{lookup-slot}
use wibo.Handles.Alloc.{alloc-Allocated}
use wibo.Handles.Release.{Closes, get-IsSound, release-IsSound, lookup-live}

-- Giving a pin back.
pub deref-IsSound :
    (pins : ℕ → ℕ) (w : World) (p : ℕ)
    → IsSound (bump p pins) w
    → (os : Objects) × (deref p w.objects ≡ some os) × IsSound pins (record w { objects = os })
unfolding deref
deref-IsSound pins w p v = elim (Option-cases (w.objects p)) [
  | inl dead ↦ absurd (ground (arith, v.counts p, dead))
  | inr (o, live) ↦ elim (Bool-cases (o.pointer_count == 1)) [
    | inl last ↦ (
      update w.objects p none,
      ground arith,
      record { slots = v.slots; counts = λ q. ground (arith, v.counts q, v.counts p) },
    )
    | inr more ↦ (
      update w.objects p (some (record o { pointer_count = count_down o.pointer_count })),
      ground arith,
      record { slots = v.slots; counts = λ q. ground (arith, v.counts q, v.counts p) },
    )
  ]
]

drop_pin-eq :
    (pins : ℕ → ℕ) (w : World) (p : ℕ) (out : Option ℕ)
    → IsSound (bump p pins) w
    → (os : Objects) × (drop_pin p out w ≡ some (out, record w { objects = os }))
      × IsSound pins (record w { objects = os })
unfolding drop_pin
drop_pin-eq pins w p out v = let (os, e, s) = deref-IsSound pins w p v in (os, rw e, s)

-- What a copy `out` of the handle `src` means: it was no handle before and finds the object of `src`,
-- with the access and the flags given; `src` is closed if the caller asked for that and is kept
-- otherwise, and every other handle finds what it found.
pub record Copied (w : World) (src p : ℕ) (closes : Bool) (access flags out : ℕ) (w' : World)
    : Type 0 where
  pub entry : Entry
  pub fresh : lookup w.table out ≡ none
  pub found : lookup w'.table out ≡ some (p, entry)
  pub access_kept : entry.meta.granted_access ≡ access
  pub flags_kept : entry.meta.flags ≡ flags
  pub source : lookup w'.table src ≡ (if closes then none else lookup w.table src)
  pub others : (k : ℕ) → k < 2 ^ 32 → k ≢ src → k ≢ out → lookup w'.table k ≡ lookup w.table k

abbrev Copies : (ℕ → ℕ) → World → ℕ → ℕ → Bool → ℕ → ℕ → Option (Option ℕ × World) → Type 0
Copies pins w src p closes access flags r =
    (out : ℕ) × (w' : World) × (r ≡ some (some out, w'))
    × Copied w src p closes access flags out w'
    × IsSound pins w'

found-ne-fresh :
    (t : Table) (h k : ℕ) {x : ℕ × Entry} → lookup t h ≡ some x → lookup t k ≡ none → h ≢ k
found-ne-fresh t h k f n q = cc (ap (lookup t) q)

-- Closing a handle that finds an object and is not protected cannot be refused.
release-Closes :
    (pins : ℕ → ℕ) (w : World) (h p : ℕ) (e : Entry)
    → IsSound pins w
    → length w.table.slots < 2 ^ 29
    → h < 2 ^ 32
    → lookup w.table h ≡ some (p, e)
    → has_flag e.meta.flags handle_flag_protect_from_close ≡ false
    → Closes pins w h (release h w)
release-Closes pins w h p e v room small f free = elim (release-IsSound pins w h v room small) [
  | inl (y, _) ↦ absurd (false≢true (sym (lookup-slot w.table h p e f).2 ∙ y))
  | inr (inl (_, inl gone, _)) ↦ cc
  | inr (inl (_, inr (q, d, g, held), _)) ↦ absurd (ground arith)
  | inr (inr c) ↦ c
]

copy_entry-kept :
    (pins : ℕ → ℕ) (w : World) (src p access flags : ℕ) (o : Object) (e : Entry)
    → IsSound (bump p pins) w
    → length w.table.slots < 2 ^ 29 - 1
    → src < 2 ^ 32
    → lookup w.table src ≡ some (p, e)
    → w.objects p ≡ some o
    → Copies pins w src p false access flags (copy_entry src p false access flags w)
unfolding copy_entry
copy_entry-kept pins w src p access flags o e v room small f live =
    let (out, w', made, a, s) = alloc-Allocated pins w p o access flags v room live in
    let apart : src ≢ out = λ q. found-ne-fresh w.table src out f a.fresh q in
    (
      out,
      w',
      rw made,
      record {
        entry = a.entry;
        fresh = a.fresh;
        found = a.found;
        access_kept = a.access_kept;
        flags_kept = a.flags_kept;
        source = a.others src small apart;
        others = λ k b n m. a.others k b m;
      },
      s,
    )

copy_entry-closed :
    (pins : ℕ → ℕ) (w : World) (src p access flags : ℕ) (o : Object) (e : Entry)
    → IsSound (bump p pins) w
    → length w.table.slots < 2 ^ 29 - 1
    → src < 2 ^ 32
    → lookup w.table src ≡ some (p, e)
    → w.objects p ≡ some o
    → has_flag e.meta.flags handle_flag_protect_from_close ≡ false
    → Copies pins w src p true access flags (copy_entry src p true access flags w)
unfolding copy_entry
copy_entry-closed pins w src p access flags o e v room small f live free =
    let (out, w', made, a, s) = alloc-Allocated pins w p o access flags v room live in
    let apart : src ≢ out = found-ne-fresh w.table src out f a.fresh in
    let kept : lookup w'.table src ≡ lookup w.table src = a.others src small apart in
    let (w'', done, s', r) =
      release-Closes pins w' src p e s (omega (arith, a.grows)) small (kept ∙ f) free in
    (
      out,
      w'',
      rw (made, done),
      record {
        entry = a.entry;
        fresh = a.fresh;
        found = r.others out (omega (arith, a.small)) (λ q. apart (sym q)) ∙ a.found;
        access_kept = a.access_kept;
        flags_kept = a.flags_kept;
        source = r.gone;
        others = λ k b n m. r.others k b n ∙ a.others k b m;
      },
      s',
    )

-- The access of a copy, bit by bit: what was granted where DUPLICATE_SAME_ACCESS (bit 1 of the
-- options) asks for it, else the bits desired that were granted.
abbrev pub Narrowed : ℕ → ℕ → ℕ → ℕ → Type 0
Narrowed granted desired options access =
    (j : ℕ)
    → test_bit access j ≡ (
        if test_bit options 1 == 1
        then test_bit granted j
        else min (test_bit desired j) (test_bit granted j))

-- DUPLICATE_CLOSE_SOURCE is bit 0 of the options.
abbrev closes_source : ℕ → Bool
closes_source options = test_bit options 0 == 1

-- HANDLE_FLAG_PROTECT_FROM_CLOSE is bit 1 of a handle's flags.
abbrev is_protected : Entry → Bool
is_protected e = test_bit e.meta.flags 1 == 1

-- HANDLE_FLAG_INHERIT is bit 0, the one flag a copy can have.
abbrev copy_flags : Bool → ℕ
copy_flags inherit = if inherit then 1 else 0

-- What `duplicateTo` does with a handle of the process's table.
pub data Duplicated (pins : ℕ → ℕ) (w : World) (src desired : ℕ) (inherit : Bool) (options : ℕ)
    : Option (Option ℕ × World) → Type 0 where
  -- The handle finds nothing.
  unknown :
      {r : Option (Option ℕ × World)}
      → lookup w.table src ≡ none
      → r ≡ some (none, w)
      → Duplicated pins w src desired inherit options r
  -- It is to be closed and is protected from that.
  refused :
      {r : Option (Option ℕ × World)} (p : ℕ) (e : Entry) (w' : World)
      → lookup w.table src ≡ some (p, e)
      → closes_source options ≡ true
      → is_protected e ≡ true
      → r ≡ some (none, w')
      → w'.table ≡ w.table
      → IsSound pins w'
      → Duplicated pins w src desired inherit options r
  -- It is to be closed, is not protected from that, and the copy would be the same: it is kept as
  -- the result.
  reused :
      {r : Option (Option ℕ × World)} (p : ℕ) (e : Entry) (w' : World)
      → lookup w.table src ≡ some (p, e)
      → closes_source options ≡ true
      → is_protected e ≡ false
      → Narrowed e.meta.granted_access desired options e.meta.granted_access
      → e.meta.flags ≡ copy_flags inherit
      → r ≡ some (some src, w')
      → w'.table ≡ w.table
      → IsSound pins w'
      → Duplicated pins w src desired inherit options r
  -- Any other is copied.
  copied :
      {r : Option (Option ℕ × World)} (p : ℕ) (e : Entry) (access out : ℕ) (w' : World)
      → lookup w.table src ≡ some (p, e)
      → (closes_source options ≡ true
          → (is_protected e ≡ false)
            × (access ≡ e.meta.granted_access → copy_flags inherit ≢ e.meta.flags))
      → Narrowed e.meta.granted_access desired options access
      → r ≡ some (some out, w')
      → Copied w src p (closes_source options) access (copy_flags inherit) out w'
      → IsSound pins w'
      → Duplicated pins w src desired inherit options r

has_flag-first : (x : ℕ) → has_flag x 1 ≡ (test_bit x 0 == 1)
has_flag-first x =
    let e : bit_and x 1 ≡ x % 2 = omega (arith, bit_and-div x 1, bit_and-le_right (x / 2) 0) in
    rw e (ground arith)

has_flag-second : (x : ℕ) → has_flag x 2 ≡ (test_bit x 1 == 1)
has_flag-second x =
    let e : bit_and x 2 ≡ x / 2 % 2 * 2 =
      omega (arith, bit_and-div x 2, bit_and-div (x / 2) 1, bit_and-le_right (x / 2 / 2) 0) in
    rw e (ground arith)

effective_access-Narrowed :
    (granted desired options : ℕ)
    → Narrowed granted desired options (effective_access granted desired options)
effective_access-Narrowed granted desired options j =
    let e = has_flag-second options in
    elim (Bool-cases (has_flag options 2)) [
      | inl y ↦ ground (arith, e, y)
      | inr n ↦ ground (arith, e, n, test_bit-bit_and desired granted j)
    ]

copy_entry-Copies :
    (pins : ℕ → ℕ) (w : World) (src p : ℕ) (closes : Bool) (access flags : ℕ) (o : Object)
    (e : Entry)
    → IsSound (bump p pins) w
    → length w.table.slots < 2 ^ 29 - 1
    → src < 2 ^ 32
    → lookup w.table src ≡ some (p, e)
    → w.objects p ≡ some o
    → (closes ≡ true → has_flag e.meta.flags handle_flag_protect_from_close ≡ false)
    → Copies pins w src p closes access flags (copy_entry src p closes access flags w)
copy_entry-Copies pins w src p false access flags o e v room small f live free =
    copy_entry-kept pins w src p access flags o e v room small f live
copy_entry-Copies pins w src p true access flags o e v room small f live free =
    copy_entry-closed pins w src p access flags o e v room small f live (free refl)

-- The three ends of `duplicateTo` once it has a pin, which changes the objects alone.
module _ (pins : ℕ → ℕ) (w : World) (src desired : ℕ) (inherit : Bool) (options p : ℕ) (e : Entry)
    (os : Objects) (f : lookup w.table src ≡ some (p, e))
    (v : IsSound (bump p pins) (record w { objects = os })) where
  dropped-refused :
      has_flag options duplicate_close_source ≡ true
      → has_flag e.meta.flags handle_flag_protect_from_close ≡ true
      → Duplicated pins w src desired inherit options
          (duplicate_entry src p e.meta desired inherit options (record w { objects = os }))
  unfolding duplicate_entry
  dropped-refused c g =
      let (os', done, s) = drop_pin-eq pins (record w { objects = os }) p none v in
      refused p e (record w { objects = os' }) f (sym (has_flag-first options) ∙ c)
        (sym (has_flag-second e.meta.flags) ∙ g) (rw (c, g) done) refl s

  dropped-reused :
      has_flag options duplicate_close_source ≡ true
      → has_flag e.meta.flags handle_flag_protect_from_close ≡ false
      → effective_access e.meta.granted_access desired options ≡ e.meta.granted_access
      → inherit_flags inherit ≡ e.meta.flags
      → Duplicated pins w src desired inherit options
          (duplicate_entry src p e.meta desired inherit options (record w { objects = os }))
  unfolding duplicate_entry
  dropped-reused c g same flags =
      let (os', done, s) = drop_pin-eq pins (record w { objects = os }) p (some src) v in
      let e' : duplicate_entry src p e.meta desired inherit options (record w { objects = os })
          ≡ drop_pin p (some src) (record w { objects = os }) =
        ground arith in
      reused p e (record w { objects = os' }) f (sym (has_flag-first options) ∙ c)
        (sym (has_flag-second e.meta.flags) ∙ g)
        (subst (Narrowed e.meta.granted_access desired options) same
          (effective_access-Narrowed e.meta.granted_access desired options))
        (sym flags) (e' ∙ done) refl s

  copied-Duplicated :
      length w.table.slots < 2 ^ 29 - 1
      → src < 2 ^ 32
      → (has_flag options duplicate_close_source ≡ true
          → (has_flag e.meta.flags handle_flag_protect_from_close ≡ false)
            × (effective_access e.meta.granted_access desired options ≡ e.meta.granted_access
                → inherit_flags inherit ≢ e.meta.flags))
      → duplicate_entry src p e.meta desired inherit options (record w { objects = os })
        ≡ copy_entry src p
            (has_flag options duplicate_close_source)
            (effective_access e.meta.granted_access desired options)
            (inherit_flags inherit)
            (record w { objects = os })
      → Duplicated pins w src desired inherit options
          (duplicate_entry src p e.meta desired inherit options (record w { objects = os }))
  copied-Duplicated room small new q =
      let (o, live) = lookup-live (bump p pins) (record w { objects = os }) src p e v.counts f in
      let access = effective_access e.meta.granted_access desired options in
      let (out, w', done, c, s) =
        copy_entry-Copies pins (record w { objects = os }) src p
          (has_flag options duplicate_close_source) access (inherit_flags inherit) o e v room small
          f live (λ y. (new y).0) in
      copied p e access out w' f
        (λ y.
          let (free, differs) = new (has_flag-first options ∙ y) in
          (sym (has_flag-second e.meta.flags) ∙ free, differs))
        (effective_access-Narrowed e.meta.granted_access desired options) (q ∙ done)
        (record {
          entry = c.entry;
          fresh = c.fresh;
          found = c.found;
          access_kept = c.access_kept;
          flags_kept = c.flags_kept;
          source =
              c.source ∙ ap (λ z. if z then none else lookup w.table src) (has_flag-first options);
          others = c.others;
        })
        s

  duplicate_entry-Duplicated :
      length w.table.slots < 2 ^ 29 - 1
      → src < 2 ^ 32
      → Duplicated pins w src desired inherit options
          (duplicate_entry src p e.meta desired inherit options (record w { objects = os }))
  unfolding duplicate_entry
  duplicate_entry-Duplicated room small =
      elim (Bool-cases (has_flag options duplicate_close_source)) [
        | inr keep ↦ copied-Duplicated room small (λ c. cc) (ground arith)
        | inl c ↦ elim (Bool-cases (has_flag e.meta.flags handle_flag_protect_from_close)) [
          | inl g ↦ dropped-refused c g
          | inr g ↦
              elim (Bool-cases (
                (effective_access e.meta.granted_access desired options == e.meta.granted_access)
                && (inherit_flags inherit == e.meta.flags))) [
                  | inl same ↦ dropped-reused c g (ground arith) (ground arith)
                  | inr new ↦
                      copied-Duplicated room small (λ _. (g, λ a b. ground arith)) (ground arith)
                ]
        ]
      ]

-- `duplicateTo` within the process's table, of a sound state, a 32-bit handle, fewer than 2 ^ 29 - 1
-- slots and counts that fit 32 bits, never faults and does one of four things: an unknown handle, and
-- a protected one that should be closed, are refused; one that should be closed and has the access
-- and flags the copy would get is itself the result; any other is copied, with the access desired
-- narrowed bit by bit to what was granted (or all of it, for the same access), the inherit flag as
-- asked and no other, and the source closed if that was asked. In each the slots and the counts stay
-- sound.
pub duplicate_to-Duplicated :
    (pins : ℕ → ℕ) (w : World) (src desired : ℕ) (inherit : Bool) (options : ℕ)
    → IsSound pins w
    → ((q : ℕ) → pins q + holders q w.table.slots + 1 < 2 ^ 32)
    → length w.table.slots < 2 ^ 29 - 1
    → src < 2 ^ 32
    → Duplicated pins w src desired inherit options (duplicate_to src desired inherit options w)
unfolding duplicate_to
duplicate_to-Duplicated pins w src desired inherit options v pinned room small =
    elim (get-IsSound pins w src v pinned) [
      | inl (f, g) ↦ unknown f (rw g)
      | inr (p, e, os, f, g, s) ↦
          rw g (duplicate_entry-Duplicated pins w src desired inherit options p e os f s room small)
    ]
