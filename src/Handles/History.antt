-- ===== src/Handles/History.antt =====
-- Histories of the handle table of src/handles.cpp: any sequence of its operations, by any threads,
-- in the order in which they take the table's lock. A duplicateTo with other threads in between is
-- the sequence of its steps `gets`, then `allocs` or `drop_pin`, then `releases`; `duplicates` is the
-- one with none in between.
use wibo.Base.{
  ℕ, ◌+◌, ◌-◌, ◌<◌, ◌^◌, ◌≡◌, inl, inr, sym, ap, ◌∙◌, subst, Bool, [], Option, none, some, arith,
  length, same_result, same_some,
}
use wibo.Handles.Objects.{Kind, Object, Objects, update, deref}
use wibo.Handles.Table.{Meta, empty_table}
use wibo.Handles.Slots.{empty_table-Inv}
use wibo.Handles.Counts.{holders, bump, IsSound}
use wibo.Handles.World.{World, alloc, release, get, set_information, duplicate_to}
use wibo.Handles.Alloc.{alloc-Allocated}
use wibo.Handles.Release.{get-IsSound, release-IsSound}
use wibo.Handles.Flags.{set_information-IsSound}
use wibo.Handles.Duplicate.{deref-IsSound, duplicate_to-Duplicated, Duplicated}

-- A state: the process, and the pins that the code outside the table holds.
pub record State : Type 0 where
  pub pins : ℕ → ℕ
  pub world : World

-- Fewer handles than the 32-bit handle values have room for, and fewer references than a count.
pub record HasRoom (s : State) : Type 0 where
  pub slots : length s.world.table.slots < 2 ^ 29 - 1
  pub pinned : (q : ℕ) → s.pins q + holders q s.world.table.slots + 1 < 2 ^ 32

-- A new object, as `make_pin` makes it: it has the one reference of its pin.
abbrev pub fresh_object : Kind → ℕ → Object
fresh_object kind flags = record { kind = kind; flags = flags; pointer_count = 1; handle_count = 0 }

-- One operation, with what it was given and what it returned.
pub data Step (s t : State) : Type 0 where
  make_pin :
      (p flags : ℕ) (kind : Kind)
      → s.world.objects p ≡ none
      → t.world
        ≡ record s.world { objects = update s.world.objects p (some (fresh_object kind flags)) }
      → t.pins ≡ bump p s.pins
      → Step s t
  drop_pin :
      (p : ℕ) (os : Objects)
      → s.pins ≡ bump p t.pins
      → deref p s.world.objects ≡ some os
      → t.world ≡ record s.world { objects = os }
      → Step s t
  allocs :
      (p access flags h : ℕ) (o : Object)
      → s.pins ≡ bump p t.pins
      → s.world.objects p ≡ some o
      → alloc p access flags s.world ≡ some (h, t.world)
      → Step s t
  gets_nothing : (h : ℕ) → t.pins ≡ s.pins → get h s.world ≡ some (none, t.world) → Step s t
  gets :
      (h p : ℕ) (meta : Meta)
      → t.pins ≡ bump p s.pins
      → get h s.world ≡ some (some (p, meta), t.world)
      → Step s t
  releases :
      (h : ℕ) (b : Bool)
      → h < 2 ^ 32
      → t.pins ≡ s.pins
      → release h s.world ≡ some (b, t.world)
      → Step s t
  sets :
      (h mask value : ℕ) (b : Bool)
      → h < 2 ^ 32
      → t.pins ≡ s.pins
      → set_information h mask value s.world ≡ (b, t.world)
      → Step s t
  duplicates :
      (src desired options : ℕ) (inherit : Bool) (out : Option ℕ)
      → src < 2 ^ 32
      → t.pins ≡ s.pins
      → duplicate_to src desired inherit options s.world ≡ some (out, t.world)
      → Step s t

Duplicated-IsSound :
    {pins : ℕ → ℕ} {w w' : World} {src desired options : ℕ} {inherit : Bool} {out : Option ℕ}
    {r : Option (Option ℕ × World)}
    → r ≡ some (out, w')
    → IsSound pins w
    → Duplicated pins w src desired inherit options r
    → IsSound pins w'
Duplicated-IsSound {pins} d v (Duplicated.unknown _ d') =
    subst (IsSound pins) (same_result d' d).1 v
Duplicated-IsSound {pins} d v (Duplicated.refused _ _ _ _ _ _ d' _ sound) =
    subst (IsSound pins) (same_result d' d).1 sound
Duplicated-IsSound {pins} d v (Duplicated.reused _ _ _ _ _ _ _ _ d' _ sound) =
    subst (IsSound pins) (same_result d' d).1 sound
Duplicated-IsSound {pins} d v (Duplicated.copied _ _ _ _ _ _ _ _ d' _ sound) =
    subst (IsSound pins) (same_result d' d).1 sound

pins-IsSound : {ps qs : ℕ → ℕ} {w : World} → qs ≡ ps → IsSound ps w → IsSound qs w
pins-IsSound {ps} {qs} {w} e = subst (λ x. IsSound x w) (sym e)

make_pin-IsSound :
    (pins : ℕ → ℕ) (w : World) (p flags : ℕ) (kind : Kind)
    → w.objects p ≡ none
    → IsSound pins w
    → IsSound
        (bump p pins)
        (record w { objects = update w.objects p (some (fresh_object kind flags)) })
make_pin-IsSound pins w p flags kind dead v = record {
  slots = v.slots;
  counts = λ q. ground (arith, v.counts q, dead);
}

-- Every operation keeps the state sound: whatever the code does with handles, the slots stay
-- partitioned, and an object lives exactly as long as a slot or a pin refers to it.
pub Step-IsSound :
    {s t : State} → HasRoom s → Step s t → IsSound s.pins s.world → IsSound t.pins t.world
Step-IsSound {s} {t} r (make_pin p flags kind dead e f) v =
    pins-IsSound f (
      subst (IsSound (bump p s.pins)) (sym e) (make_pin-IsSound s.pins s.world p flags kind dead v))
Step-IsSound {s} {t} r (drop_pin p os e d f) v =
    let (os', d', sound) = deref-IsSound t.pins s.world p (pins-IsSound (sym e) v) in
    subst (IsSound t.pins) (sym f)
      (subst (λ x. IsSound t.pins (record s.world { objects = x })) (same_some d' d) sound)
Step-IsSound {s} {t} r (allocs p access flags h o e live d) v =
    let (h', w', d', _, sound) =
      alloc-Allocated t.pins s.world p o access flags (pins-IsSound (sym e) v) r.slots live in
    subst (IsSound t.pins) (same_result d' d).1 sound
Step-IsSound {s} {t} r (gets_nothing h e d) v =
    pins-IsSound e (elim (get-IsSound s.pins s.world h v r.pinned) [
      | inl (_, d') ↦ subst (IsSound s.pins) (same_result d' d).1 v
      | inr (p, x, os, _, d', _) ↦ absurd (ground arith)
    ])
Step-IsSound {s} {t} r (gets h p meta e d) v =
    pins-IsSound e (elim (get-IsSound s.pins s.world h v r.pinned) [
      | inl (_, d') ↦ absurd (ground arith)
      | inr (q, x, os, _, d', sound) ↦
          let same : q ≡ p = ground arith in
          subst (λ a. IsSound (bump a s.pins) t.world) same
            (subst (IsSound (bump q s.pins)) (same_result d' d).1 sound)
    ])
Step-IsSound {s} {t} r (releases h b small e d) v =
    pins-IsSound e (elim (release-IsSound s.pins s.world h v (omega (arith, r.slots)) small) [
      | inl (_, d') ↦ subst (IsSound s.pins) (same_result d' d).1 v
      | inr (inl (_, _, d')) ↦ subst (IsSound s.pins) (same_result d' d).1 v
      | inr (inr (w', d', sound, _)) ↦ subst (IsSound s.pins) (same_result d' d).1 sound
    ])
Step-IsSound {s} {t} r (sets h mask value b small e d) v =
    pins-IsSound e
      (elim (set_information-IsSound s.pins s.world h mask value v (omega (arith, r.slots)) small) [
        | inl (_, d') ↦ subst (IsSound s.pins) (ap (λ x. x.1) (sym d' ∙ d)) v
        | inr (inl (_, _, d')) ↦ subst (IsSound s.pins) (ap (λ x. x.1) (sym d' ∙ d)) v
        | inr (inr (w', d', c)) ↦ subst (IsSound s.pins) (ap (λ x. x.1) (sym d' ∙ d)) c.sound
      ])
Step-IsSound {s} {t} r (duplicates src desired options inherit out small e d) v = pins-IsSound e (
    Duplicated-IsSound d v
      (duplicate_to-Duplicated s.pins s.world src desired inherit options v r.pinned r.slots small))

-- A history whose states all have room for one more operation.
pub data Reach (s : State) : State → Type 0 where
  here : Reach s s
  next : {t u : State} → Reach s t → HasRoom t → Step t u → Reach s u

-- The operations of a history that may close a handle.
abbrev pub step_closings : {s t : State} → Step s t → ℕ
step_closings (releases _ _ _ _ _) = 1
step_closings (duplicates _ _ _ _ _ _ _ _) = 1
step_closings _ = 0

abbrev pub closings : {s t : State} → Reach s t → ℕ
closings here = 0
closings (next r _ st) = closings r + step_closings st

abbrev pub start : State
start = record {
  pins = λ _. 0;
  world = record { objects = λ _. none; table = empty_table; names = [] };
}

start-IsSound : IsSound start.pins start.world
start-IsSound = record { slots = empty_table-Inv; counts = λ q. omega arith }

pub Reach-keeps : {s t : State} → IsSound s.pins s.world → Reach s t → IsSound t.pins t.world
Reach-keeps v here = v
Reach-keeps v (next r room st) = Step-IsSound room st (Reach-keeps v r)

-- Whatever sequence of operations the process makes from its start, the slots are partitioned into
-- those taken and those parked once, and every object's two counts are exact.
pub Reach-IsSound : {t : State} → Reach start t → IsSound t.pins t.world
Reach-IsSound r = Reach-keeps start-IsSound r
