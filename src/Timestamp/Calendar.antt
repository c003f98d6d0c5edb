-- ===== src/Timestamp/Calendar.antt =====
-- The proleptic Gregorian calendar, as a specification for src/timestamp.rs: leap years, the
-- lengths of the months, and the date that follows a date.
use ecapplog_rust.Base.{ℕ, ◌+◌, ◌≤◌, Bool, not, ◌&&◌, ◌||◌, ltb, ◌==◌, if◌then◌else◌}
use ecapplog_rust.Base.Int.{ℤ, pos, ◌+ℤ◌, rem_euclid}
use ecapplog_rust.Timestamp.{Date}

unfoldable pub is_leap : ℤ → Bool
unfolding rem_euclid
is_leap y = (rem_euclid y 4 == 0) && (not (rem_euclid y 100 == 0) || (rem_euclid y 400 == 0))

abbrev pub month_length : Bool → ℕ → ℕ
month_length leap m =
    if m == 2
    then (if leap then 29 else 28)
    else if (m == 4) || ((m == 6) || ((m == 9) || (m == 11)))
    then 30
    else 31

unfoldable pub days_in_month : ℤ → ℕ → ℕ
days_in_month y m = month_length (is_leap y) m

pub record IsDate (t : Date) : Type 0 where
  pub day_bounds : (t.day ≤ days_in_month t.year t.month) × (1 ≤ t.day)
  pub month_bounds : (t.month ≤ 12) × (1 ≤ t.month)

unfoldable pub next_day : Date → Date
unfolding days_in_month
next_day t =
    if ltb t.day (days_in_month t.year t.month)
    then record t { day = t.day + 1 }
    else if ltb t.month 12
    then record t { month = t.month + 1; day = 1 }
    else record { year = t.year +ℤ pos 1; month = 1; day = 1 }
