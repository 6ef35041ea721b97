-- ===== src/Sync/Signals.antt =====
-- What the signals that reach a wait block of dll/kernel32/synchapi.cpp amount to where one object is
-- enough.
use wibo.Base.{
  ◌+◌, ℕ, zero, suc, ◌≤◌, ◌<◌, ◌≡◌, ◌⊎◌, inl, inr, refl, ap, ◌∙◌, arith, List, [], ◌∷◌, Bool, true,
  false, Option, none, some, ltb, if◌then◌else◌, length, get_elem?, Bool-cases,
}
use wibo.Sync.Blocks.{
  Block, all_false, new_block, signal_result, satisfy, handle_signal, handle_signals, outcome,
}

abbrev pub Signals : Type 0
Signals = List (ℕ × Bool)

-- The results of a wait as they are documented: the index of the object, from 0x80 on if it was abandoned.
abbrev pub wait_result : ℕ → Bool → ℕ
wait_result i false = i
wait_result i true = 0x80 + i

signal_result-wait_result : (i : ℕ) (a : Bool) → signal_result i a ≡ wait_result i a
signal_result-wait_result i false = omega arith
signal_result-wait_result i true = omega arith

-- The first signal of one of `n` objects.
abbrev pub first_signal : ℕ → Signals → Option ℕ
first_signal n [] = none
first_signal n ((i, a) ∷ signals) =
    if ltb i n then some (wait_result i a) else first_signal n signals

pub get_elem?-all_false :
    (n i : ℕ) → get_elem? (all_false n) i ≡ (if ltb i n then some false else none)
get_elem?-all_false zero i = ground arith
get_elem?-all_false (suc n) zero = ground arith
get_elem?-all_false (suc n) (suc i) = get_elem?-all_false n i ∙ ground arith

pub length-all_false : (n : ℕ) → length (all_false n) ≡ n
length-all_false zero = refl
length-all_false (suc n) = ap suc (length-all_false n)

-- A block that is completed stays as it is.
pub handle_signal-completed :
    (i : ℕ) (a : Bool) (b : Block) → b.completed ≡ true → handle_signal i a b ≡ b
unfolding handle_signal
handle_signal-completed i a b c = ground (arith, c)

handle_signals-completed :
    (signals : Signals) (b : Block) → b.completed ≡ true → handle_signals signals b ≡ b
unfolding handle_signals
handle_signals-completed [] b c = refl
handle_signals-completed ((i, a) ∷ signals) b c =
    let e = handle_signal-completed i a b c in rw e (handle_signals-completed signals b c)

handle_signal-first :
    (n i : ℕ) (a : Bool)
    → ((i < n)
        × (outcome (handle_signal i a (new_block false n)) ≡ some (wait_result i a))
        × ((handle_signal i a (new_block false n)).completed ≡ true))
      ⊎ ((n ≤ i) × (handle_signal i a (new_block false n) ≡ new_block false n))
unfolding handle_signal new_block satisfy outcome
handle_signal-first n i a = elim (Bool-cases (ltb i n)) [
  | inl t ↦
      let e : get_elem? (all_false n) i ≡ some false = get_elem?-all_false n i ∙ ground arith in
      inl (
        grind arith,
        rw (handle_signal, e) (ap some (signal_result-wait_result i a)),
        rw (handle_signal, e) refl,
      )
  | inr f ↦
      let e : get_elem? (all_false n) i ≡ none = get_elem?-all_false n i ∙ ground arith in
      inr (grind arith, rw (handle_signal, e) refl)
]

-- Where one object is enough, a block of `n` objects is completed by the first signal of one of them, with its
-- index, plus 0x80 if it was abandoned, and by nothing else; later signals change nothing.
pub handle_signals-first_signal :
    (n : ℕ) (signals : Signals)
    → outcome (handle_signals signals (new_block false n)) ≡ first_signal n signals
unfolding handle_signals
handle_signals-first_signal n [] = outcome-new_block n
  where
    outcome-new_block : (n : ℕ) → outcome (new_block false n) ≡ none
    outcome-new_block n = unfold outcome new_block in refl
handle_signals-first_signal n ((i, a) ∷ signals) = elim (handle_signal-first n i a) [
  | inl (l, o, c) ↦
      let t : ltb i n ≡ true = grind arith in
      rw (handle_signals-completed signals (handle_signal i a (new_block false n)) c, o, t) refl
  | inr (g, e) ↦
      let f : ltb i n ≡ false = grind arith in rw (e, f) (handle_signals-first_signal n signals)
]
