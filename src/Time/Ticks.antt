-- ===== src/Time/Ticks.antt =====
-- FILETIME and the seconds of Unix (dll/kernel32/timeutil.h).
use wibo.Base.{
  ℕ, zero, suc, ◌+◌, ◌-◌, ◌*◌, ◌/◌, ◌%◌, ◌^◌, ◌≤◌, ◌<◌, ◌≡◌, inl, inr, ap, ◌∙◌, false, not, Option,
  none, some, arith, ltb, leb, ◌==◌, if◌then◌else◌, u32, Bool-cases,
}
use wibo.Base.Int.{ℤ, pos, negsuc, negate}

abbrev pub hundred_ns_per_second : ℕ
hundred_ns_per_second = 10000000

abbrev pub unix_time_zero : ℕ
unix_time_zero = 11644473600 * 10000000

-- FILETIME
pub record FileTime : Type 0 where
  pub low : ℕ
  pub high : ℕ

-- `fileTimeToDuration`: the halves have 32 bits, so that the bitwise or is a sum.
unfoldable pub file_time_to_duration : FileTime → ℕ
file_time_to_duration ft = ft.high * 2 ^ 32 + ft.low

-- `fileTimeFromDuration`
unfoldable pub file_time_from_duration : ℕ → FileTime
file_time_from_duration ticks = record { low = ticks % 2 ^ 32; high = u32 (ticks / 2 ^ 32) }

-- `fileTimeToUnixParts`, which always succeeds: the seconds and the hundreds of nanoseconds.
unfoldable pub file_time_to_unix_parts : FileTime → ℤ × ℕ
file_time_to_unix_parts ft =
    let ticks = file_time_to_duration ft in
    let after = ticks - unix_time_zero in
    let before = unix_time_zero - ticks in
    let rem = before % hundred_ns_per_second in
    if leb unix_time_zero ticks
    then (pos (after / hundred_ns_per_second), after % hundred_ns_per_second)
    else if not (rem == 0)
    then (negsuc (before / hundred_ns_per_second), hundred_ns_per_second - rem)
    else (negate (before / hundred_ns_per_second), rem)

-- The sum of `unixPartsToFileTime`, on 128 bits, or `none` if it is negative.
unfoldable pub total_ticks : ℤ → ℕ → Option ℕ
total_ticks (pos s) hundreds = some (s * hundred_ns_per_second + hundreds + unix_time_zero)
total_ticks (negsuc s) hundreds =
    let owed = (s + 1) * hundred_ns_per_second in
    if ltb (hundreds + unix_time_zero) owed then none else some (hundreds + unix_time_zero - owed)

-- `unixPartsToFileTime`
unfoldable pub unix_parts_to_file_time : ℤ → ℕ → Option FileTime
unix_parts_to_file_time seconds hundreds =
    if leb hundred_ns_per_second hundreds then none else elim (total_ticks seconds hundreds) [
      | none ↦ none
      | some ticks ↦ if ltb (2 ^ 64 - 1) ticks then none else some (file_time_from_duration ticks)
    ]

-- The halves of a FILETIME have 32 bits.
abbrev pub IsFileTime : FileTime → Type 0
IsFileTime ft = (ft.low < 2 ^ 32) × (ft.high < 2 ^ 32)

file_time_from_duration-file_time_to_duration :
    (ft : FileTime) → IsFileTime ft → file_time_from_duration (file_time_to_duration ft) ≡ ft
unfolding file_time_from_duration file_time_to_duration
file_time_from_duration-file_time_to_duration ft (l, h) =
    let a : (ft.high * 2 ^ 32 + ft.low) % 2 ^ 32 ≡ ft.low = omega arith in
    let b : u32 ((ft.high * 2 ^ 32 + ft.low) / 2 ^ 32) ≡ ft.high = omega arith in
    λ i. record { low = a i; high = b i }

total_ticks-negate :
    (n rem : ℕ)
    → n * hundred_ns_per_second ≤ unix_time_zero
    → total_ticks (negate n) rem ≡ some (rem + unix_time_zero - n * hundred_ns_per_second)
unfolding total_ticks negate
total_ticks-negate zero rem h = ap some (omega arith)
total_ticks-negate (suc n) rem h = ground arith

-- The seconds and the rest of a FILETIME add up to its ticks, and the rest is less than a second.
total_ticks-file_time_to_unix_parts :
    (ft : FileTime)
    → (total_ticks (file_time_to_unix_parts ft).0 (file_time_to_unix_parts ft).1
        ≡ some (file_time_to_duration ft))
      × ((file_time_to_unix_parts ft).1 < hundred_ns_per_second)
unfolding file_time_to_unix_parts total_ticks
total_ticks-file_time_to_unix_parts ft =
    let t : ℕ = file_time_to_duration ft in
    let before : ℕ = unix_time_zero - t in
    elim (Bool-cases (leb unix_time_zero t)) [
      | inl a ↦ rw a (ap some (grind arith), omega arith)
      | inr a ↦ elim (Bool-cases (before % hundred_ns_per_second == 0)) [
        | inr b ↦
            let c : ltb (hundred_ns_per_second - before % hundred_ns_per_second + unix_time_zero)
                  ((before / hundred_ns_per_second + 1) * hundred_ns_per_second)
                ≡ false =
              grind arith in
            rw (a, b) (rw (total_ticks, c) (ap some (grind arith)), grind arith)
        | inl b ↦
            let k =
              total_ticks-negate (before / hundred_ns_per_second) (before % hundred_ns_per_second)
                (omega arith) in
            rw (a, b) (k ∙ ap some (grind arith), omega arith)
      ]
    ]

file_time_to_duration-bound :
    (ft : FileTime) → IsFileTime ft → ltb (2 ^ 64 - 1) (file_time_to_duration ft) ≡ false
unfolding file_time_to_duration
file_time_to_duration-bound ft (l, h) =
    let b : ft.high * 2 ^ 32 + ft.low < 2 ^ 64 = omega arith in grind arith

-- Every FILETIME, before 1970 or after, comes back from its seconds and hundreds of nanoseconds.
pub unix_parts_to_file_time-file_time_to_unix_parts :
    (ft : FileTime)
    → IsFileTime ft
    → unix_parts_to_file_time (file_time_to_unix_parts ft).0 (file_time_to_unix_parts ft).1
      ≡ some ft
unfolding unix_parts_to_file_time
unix_parts_to_file_time-file_time_to_unix_parts ft (l, h) =
    let (e, b) = total_ticks-file_time_to_unix_parts ft in
    let u : leb hundred_ns_per_second (file_time_to_unix_parts ft).1 ≡ false = grind arith in
    let r = file_time_from_duration-file_time_to_duration ft (l, h) in
    let v : ltb (2 ^ 64 - 1) (file_time_to_duration ft) ≡ false =
      file_time_to_duration-bound ft (l, h) in
    rw (unix_parts_to_file_time, u, e, v) (ap some r)
