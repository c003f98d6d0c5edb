-- ===== src/Timestamp/Civil.antt =====
-- src/timestamp.rs: the months and days of one March-based year against the calendar.
use ecapplog_rust.Base.{
  ℕ, ◌+◌, ◌<◌, ◌≡◌, refl, ◌&&◌, not, Bool, true, false, arith, every_below, every_below-at, ◌==◌,
  ltb, leb, if◌then◌else◌, Bool-cases, inl, inr,
}
use ecapplog_rust.Base.Int.{ℤ, pos, ◌+ℤ◌, +ℤ_zero}
use ecapplog_rust.Timestamp.{month_of, day_of, date_of}
use ecapplog_rust.Timestamp.Calendar.{is_leap, month_length, days_in_month, IsDate, next_day}

-- The step from one day of the March-based year to the next, as a test over a small range.
abbrev pub year_length : Bool → ℕ
year_length leap = if leap then 366 else 365

abbrev next_agrees : Bool → ℕ → Bool
next_agrees leap d =
    if ltb (d + 1) (year_length leap)
    then (if ltb (day_of d) (month_length leap (month_of d))
        then (month_of (d + 1) == month_of d) && (day_of (d + 1) == day_of d + 1)
        else (day_of (d + 1) == 1)
          && (if ltb (month_of d) 12
              then (month_of (d + 1) == month_of d + 1) && not (month_of d == 2)
              else month_of (d + 1) == 1))
    else (month_of d == 2) && (day_of d == month_length leap 2)

abbrev date_agrees : Bool → ℕ → Bool
date_agrees leap d =
    leb 1 (month_of d)
    && (leb (month_of d) 12
        && (leb 1 (day_of d) && leb (day_of d) (month_length leap (month_of d))))

abbrev agrees : Bool → ℕ → Bool
agrees leap d = next_agrees leap d && date_agrees leap d

agrees_table : (leap : Bool) → every_below (agrees leap) (year_length leap) ≡ true
unfolding every_below month_of day_of
agrees_table true = refl
agrees_table false = refl

agrees_at : (leap : Bool) (d : ℕ) → d < year_length leap → agrees leap d ≡ true
agrees_at leap d = every_below-at (agrees leap) d (year_length leap) (agrees_table leap)

abbrev carry : ℕ → ℕ
carry d = if leb (month_of d) 2 then 1 else 0

first_of_march : (month_of 0 ≡ 3) × (day_of 0 ≡ 1)
unfolding month_of day_of
first_of_march = (refl, refl)

-- The leap rule of the March-based year `y` is that of the February in which it ends.
month_length-carry :
    (y : ℤ) (d : ℕ)
    → days_in_month (y +ℤ pos (carry d)) (month_of d)
      ≡ month_length (is_leap (y +ℤ pos 1)) (month_of d)
unfolding days_in_month
month_length-carry y d = elim (Bool-cases (month_of d == 2)) [
  | inl h ↦ let e : month_of d ≡ 2 = ground arith in rw e refl
  | inr h ↦ rw h refl
]

module _ (y : ℤ) (d : ℕ) (h : d < year_length (is_leap (y +ℤ pos 1))) where
  pub date_of-next : next_day (date_of y d) ≡ (
      if ltb (d + 1) (year_length (is_leap (y +ℤ pos 1)))
      then date_of y (d + 1)
      else date_of (y +ℤ pos 1) 0)
  unfolding next_day date_of
  date_of-next = ground (
    arith,
    agrees_at (is_leap (y +ℤ pos 1)) d h,
    month_length-carry y d,
    +ℤ_zero y,
    +ℤ_zero (y +ℤ pos 1),
    first_of_march,
  )

  pub date_of-IsDate : IsDate (date_of y d)
  unfolding date_of
  date_of-IsDate = ground (arith, agrees_at (is_leap (y +ℤ pos 1)) d h, month_length-carry y d)
