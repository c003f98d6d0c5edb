-- ===== src/Timestamp/Tests.antt =====
-- Runs that follow the unit tests of src/timestamp.rs, and the theorems at such inputs.
use ecapplog_rust.Base.{◌+◌, ◌<◌, ◌≡◌, ◌↔◌, refl, arith, some, none, true}
use ecapplog_rust.Base.Int.{ℤ, pos, negsuc, ◌+ℤ◌, ◌*ℤ◌, ◌≤ℤ◌, rem_euclid}
use ecapplog_rust.Base.Text.{codes, decimal}
use ecapplog_rust.Timestamp.{civil_from_days, clock_of, total_millis, print_clock, format_utc}
use ecapplog_rust.Timestamp.Calendar.{IsDate, next_day}
use ecapplog_rust.Timestamp.Floor.{floor_date, floor_date-next}
use ecapplog_rust.Timestamp.Agreement.{OnTrack, civil_from_days_iff, civil_from_days-next}
use ecapplog_rust.Timestamp.Layout.{
  plausible, read_clock, read_digits, day_number, millis_of_day, clock_of_split,
  read_clock-format_utc, read_clock-print_clock,
}

matches_the_cpp_client_fixture :
    format_utc (pos 1581761840120000000) ≡ codes "2020-02-15T10:17:20.120"
unfolding format_utc rem_euclid decimal
matches_the_cpp_client_fixture = refl

truncates : format_utc (pos 1999999) ≡ codes "1970-01-01T00:00:00.001"
unfolding format_utc rem_euclid decimal
truncates = refl

leap_days :
    (format_utc (pos 951782400000000000) ≡ codes "2000-02-29T00:00:00.000")
    × (format_utc (negsuc 2203977599999999999) ≡ codes "1900-02-28T00:00:00.000")
    × (format_utc (negsuc 2203891199999999999) ≡ codes "1900-03-01T00:00:00.000")
unfolding format_utc rem_euclid decimal
leap_days = (refl, refl, refl)

pre_epoch : format_utc (negsuc 499999999) ≡ codes "1969-12-31T23:59:59.500"
unfolding format_utc rem_euclid decimal
pre_epoch = refl

-- 0000-02-28, the day before the last one of its era, comes out as 0000-02-29.
early : (civil_from_days (negsuc 719469)) ≡ record { year = pos 0; month = 2; day = 29 }
unfolding civil_from_days
early = refl

floor_date-next_example :
    IsDate (floor_date (negsuc 800000))
    × (next_day (floor_date (negsuc 800000)) ≡ floor_date (negsuc 799999))
unfolding ◌+ℤ◌
floor_date-next_example = floor_date-next (negsuc 800000)

civil_from_days_iff_example :
    (civil_from_days (pos 20000) ≡ floor_date (pos 20000)) ↔ OnTrack (pos 20000 +ℤ pos 719468)
civil_from_days_iff_example = civil_from_days_iff (pos 20000)

civil_from_days-next_example :
    IsDate (civil_from_days (pos 11016))
    × (next_day (civil_from_days (pos 11016)) ≡ civil_from_days (pos 11016 +ℤ pos 1))
    × (civil_from_days (pos 0) ≡ record { year = pos 1970; month = 1; day = 1 })
civil_from_days-next_example = civil_from_days-next (pos 11016) (omega arith)

clock_of_split_example :
    let c = clock_of (negsuc 499999999) in
    (c.hour < 24)
    × (c.minute < 60)
    × (c.second < 60)
    × (c.millis < 1000)
    × ((day_number (negsuc 499999999) *ℤ 86400000 +ℤ pos (millis_of_day c)) *ℤ 1000000
        ≤ℤ negsuc 499999999)
    × (negsuc 499999999 +ℤ pos 1
        ≤ℤ (day_number (negsuc 499999999) *ℤ 86400000 +ℤ pos (millis_of_day c + 1)) *ℤ 1000000)
clock_of_split_example = clock_of_split (negsuc 499999999)

fixture : ℤ
fixture = pos 1581761840120000000

read_clock-format_utc_example :
    (plausible (format_utc fixture) ≡ true)
    × (read_clock (format_utc fixture) ≡ some (clock_of fixture))
    × ((clock_of fixture).date ≡ civil_from_days (day_number fixture))
unfolding fixture civil_from_days total_millis
read_clock-format_utc_example = read_clock-format_utc fixture (omega arith)

read_clock-print_clock_example :
    read_clock (print_clock (clock_of (pos 0))) ≡ some (clock_of (pos 0))
unfolding clock_of rem_euclid
read_clock-print_clock_example = read_clock-print_clock (clock_of (pos 0)) (omega arith)

has_no_zone_suffix : read_clock (codes "2020-02-15T10:17:20.120Z") ≡ none
unfolding read_clock read_digits
has_no_zone_suffix = refl
