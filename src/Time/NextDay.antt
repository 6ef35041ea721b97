-- ===== src/Time/NextDay.antt =====
-- The day numbers of dll/kernel32/timeutil.h count days.
use wibo.Base.{
  ℕ, zero, suc, ◌+◌, ◌-◌, ◌≤◌, ◌<◌, ◌≡◌, inl, inr, refl, sym, subst, ap, ◌∙◌, arith, true, false,
  ltb, leb, ◌==◌, if◌then◌else◌, Bool-cases,
}
use wibo.Base.Int.{ℤ, pos, negsuc, negate}
use wibo.Time.Civil.{is_leap_year, days_in_month, days_of_era, difference, days_from_civil}

-- The first of March comes after the last of February.
march : (year : ℕ) → 1 ≤ year → days_of_era year 3 1 ≡ days_of_era year 2 (days_in_month year 2) + 1
unfolding days_of_era days_in_month is_leap_year
march year h = ground arith

new_year : (year : ℕ) → 1 ≤ year → days_of_era (year + 1) 1 1 ≡ days_of_era year 12 31 + 1
unfolding days_of_era
new_year year h = ground arith

other_month :
    (year month : ℕ)
    → 1 ≤ year
    → 1 ≤ month
    → month < 12
    → (month == 2) ≡ false
    → days_of_era year (month + 1) 1 ≡ days_of_era year month (days_in_month year month) + 1
unfolding days_of_era days_in_month
other_month year month h lo hi n = ground (arith, h, lo, hi, n)

december : (year : ℕ) → days_in_month year 12 ≡ 31
unfolding days_in_month
december year = refl

next_month :
    (year month : ℕ)
    → 1 ≤ year
    → 1 ≤ month
    → month < 12
    → days_of_era year (month + 1) 1 ≡ days_of_era year month (days_in_month year month) + 1
next_month year month h lo hi = elim (Bool-cases (month == 2)) [
  | inl t ↦
      let e : month ≡ 2 = grind arith in
      subst (λ m. days_of_era year (m + 1) 1 ≡ days_of_era year m (days_in_month year m) + 1)
        (sym e) (march year h)
  | inr f ↦ other_month year month h lo hi f
]

same_month :
    (year month day : ℕ)
    → 1 ≤ day
    → days_of_era year month (day + 1) ≡ days_of_era year month day + 1
unfolding days_of_era
same_month year month day h = ground (arith, h)

-- The day after one that is `a` days after the origin.
abbrev pub next : ℤ → ℤ
next (pos n) = pos (n + 1)
next (negsuc zero) = pos 0
next (negsuc (suc n)) = negsuc n

negate-next : (k : ℕ) → negate k ≡ next (negate (suc k))
unfolding negate
negate-next zero = refl
negate-next (suc k) = refl

difference-next : (a b : ℕ) → difference (a + 1) b ≡ next (difference a b)
unfolding difference
difference-next a b = elim (Bool-cases (leb b a)) [
  | inl t ↦
      let u : leb b (a + 1) ≡ true = grind arith in
      let l : b ≤ a = grind arith in rw (t, u) (ap pos (omega (arith, l)))
  | inr f ↦ elim (Bool-cases (leb b (a + 1))) [
    | inl u ↦
        let x : b - a ≡ 1 = grind arith in
        let y : a + 1 - b ≡ 0 = grind arith in unfold negate in rw (f, u, x, y) refl
    | inr u ↦
        let x : b - a ≡ suc (b - (a + 1)) = grind arith in rw (f, u, x) (negate-next (b - (a + 1)))
  ]
]

-- The day after a date of the calendar, as year, month and day.
abbrev pub next_day : ℕ → ℕ → ℕ → ℕ × ℕ × ℕ
next_day year month day =
    if ltb day (days_in_month year month)
    then (year, month, day + 1)
    else if ltb month 12
    then (year, month + 1, 1)
    else (year + 1, 1, 1)

abbrev pub day_number : ℕ × ℕ × ℕ → ℤ
day_number (year, month, day) = days_from_civil year month day

-- From the year 1 on, the day after a date of the calendar has the next number, across the ends of months, leap
-- years and centuries.
pub days_from_civil-next_day :
    (year month day : ℕ)
    → 1 ≤ year
    → 1 ≤ month
    → month ≤ 12
    → 1 ≤ day
    → day ≤ days_in_month year month
    → day_number (next_day year month day) ≡ next (days_from_civil year month day)
unfolding days_from_civil
days_from_civil-next_day year month day y lo hi d last =
    let number = λ (a : ℕ) (e : a ≡ days_of_era year month day + 1).
      ap (λ z. difference z 719468) e ∙ difference-next (days_of_era year month day) 719468 in
    elim (Bool-cases (ltb day (days_in_month year month))) [
      | inl t ↦ rw t (number (days_of_era year month (day + 1)) (same_month year month day d))
      | inr f ↦
          let q : day ≡ days_in_month year month = grind arith in
          elim (Bool-cases (ltb month 12)) [
            | inl t ↦
                rw (f, t)
                  (number (days_of_era year (month + 1) 1) (
                    next_month year month y lo (grind arith)
                    ∙ ap (λ z. days_of_era year month z + 1) (sym q)))
            | inr g ↦
                let m : month ≡ 12 = grind arith in
                rw (f, g)
                  (number (days_of_era (year + 1) 1 1) (
                    new_year year y
                    ∙ ap (λ z. days_of_era year z 31 + 1) (sym m)
                    ∙ ap (λ z. days_of_era year month z + 1)
                        (sym (december year) ∙ ap (days_in_month year) (sym m) ∙ sym q)))
          ]
    ]
