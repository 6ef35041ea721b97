-- ===== src/Time/Civil.antt =====
-- The civil dates of dll/kernel32/timeutil.h, for years from 1 on, as those of SYSTEMTIME are.
use wibo.Base.{
  ℕ, suc, ◌+◌, ◌-◌, ◌*◌, ◌/◌, ◌%◌, Bool, true, false, Option, none, some, ltb, leb, ◌==◌, ◌||◌,
  if◌then◌else◌,
}
use wibo.Base.Int.{ℤ, pos, negsuc, negate}

-- `isLeapYear`
unfoldable pub is_leap_year : ℕ → Bool
is_leap_year year =
    if year % 4 == 0 then (if year % 100 == 0 then year % 400 == 0 else true) else false

-- The table of `daysInMonth`, for the months 1 to 12.
abbrev pub base_days : ℕ → ℕ
base_days month =
    if month == 2
    then 28
    else if month == 4
    then 30
    else if month == 6
    then 30
    else if month == 9
    then 30
    else if month == 11
    then 30
    else 31

-- `daysInMonth`
unfoldable pub days_in_month : ℕ → ℕ → ℕ
days_in_month year month =
    if month == 2
    then (if is_leap_year year then base_days month + 1 else base_days month)
    else base_days month

-- `era * 146097 + doe` in `daysFromCivil`.
unfoldable pub days_of_era : ℕ → ℕ → ℕ → ℕ
days_of_era year month day =
    let y = if leb month 2 then year - 1 else year in
    let era = y / 400 in
    let yoe = y - era * 400 in
    let mp = if ltb 2 month then month - 3 else month + 9 in
    let doy = (153 * mp + 2) / 5 + day - 1 in
    let doe = yoe * 365 + yoe / 4 - yoe / 100 + yoe / 400 + doy in era * 146097 + doe

-- a - b
unfoldable pub difference : ℕ → ℕ → ℤ
difference a b = if leb b a then pos (a - b) else negate (b - a)

-- `daysFromCivil`
unfoldable pub days_from_civil : ℕ → ℕ → ℕ → ℤ
days_from_civil year month day = difference (days_of_era year month day) 719468

-- `SYSTEMTIME`, without the day of the week.
pub record SystemTime : Type 0 where
  pub year : ℕ
  pub month : ℕ
  pub day : ℕ
  pub hour : ℕ
  pub minute : ℕ
  pub second : ℕ
  pub milliseconds : ℕ

-- `validateSystemTime`
unfoldable pub validate_system_time : SystemTime → Bool
validate_system_time st =
    if ltb st.year 1601
    then false
    else if ltb st.month 1 || ltb 12 st.month
    then false
    else if ltb st.day 1 || ltb (days_in_month st.year st.month) st.day
    then false
    else if ltb 23 st.hour
    then false
    else if ltb 59 st.minute
    then false
    else if ltb 59 st.second
    then false
    else if ltb 999 st.milliseconds
    then false
    else true

-- `days * SECONDS_PER_DAY + secondsOfDay`
unfoldable pub seconds_of : ℤ → ℕ → ℤ
seconds_of (pos days) second_of_day = pos (days * 86400 + second_of_day)
seconds_of (negsuc n) second_of_day = difference second_of_day (suc n * 86400)

-- `systemTimeToUnixParts`: the seconds and the hundreds of nanoseconds.
unfoldable pub system_time_to_unix_parts : SystemTime → Option (ℤ × ℕ)
system_time_to_unix_parts st =
    if validate_system_time st
    then some (
      seconds_of (days_from_civil st.year st.month st.day)
          (st.hour * 3600 + st.minute * 60 + st.second),
      st.milliseconds * 10000,
    )
    else none
