-- ===== src/Time/Tests.antt =====
-- Runs of the conversions of times: a moment before 1970 and one after.
use wibo.Base.{◌≡◌, refl, some, arith}
use wibo.Base.Int.{pos, negsuc}
use wibo.Time.Ticks.{
  FileTime, file_time_to_unix_parts, unix_parts_to_file_time, file_time_from_duration,
  unix_parts_to_file_time-file_time_to_unix_parts,
}
use wibo.Time.Civil.{SystemTime, days_from_civil, system_time_to_unix_parts}
use wibo.Time.NextDay.{next, next_day, day_number, days_from_civil-next_day}

-- A quarter of a second before 1970.
abbrev before_1970 : FileTime
before_1970 = record { low = 3575143008; high = 27111902 }

parts_before_1970 : file_time_to_unix_parts before_1970 ≡ (negsuc 0, 7500000)
unfolding file_time_to_unix_parts wibo.Time.Ticks.file_time_to_duration
parts_before_1970 = refl

unix_parts_to_file_time-file_time_to_unix_parts_example :
    unix_parts_to_file_time
      (file_time_to_unix_parts before_1970).0
      (file_time_to_unix_parts before_1970).1
    ≡ some before_1970
unix_parts_to_file_time-file_time_to_unix_parts_example =
    unix_parts_to_file_time-file_time_to_unix_parts before_1970 (omega arith, omega arith)

epoch : days_from_civil 1970 1 1 ≡ pos 0
unfolding days_from_civil wibo.Time.Civil.days_of_era wibo.Time.Civil.difference
epoch = refl

days_from_civil-next_day_example :
    day_number (next_day 1900 2 28) ≡ next (days_from_civil 1900 2 28)
unfolding wibo.Time.Civil.days_in_month wibo.Time.Civil.is_leap_year
days_from_civil-next_day_example =
    days_from_civil-next_day 1900 2 28 (omega arith) (omega arith) (omega arith) (omega arith)
      (omega arith)
