-- ===== src/Timestamp/Agreement.antt =====
-- src/timestamp.rs: `civil_from_days` and the calendar.
use ecapplog_rust.Base.{
  ℕ, suc, ◌+◌, ◌-◌, ◌%◌, ◌≤◌, ◌<◌, ◌≡◌, ◌≢◌, ◌↔◌, refl, ap, ◌∙◌, sym, subst, ◌&&◌, not, Bool, true,
  arith, every_below, every_below-at, ◌==◌,
}
use native.Mathlib.Decide.{ℕ_discrete}
use ecapplog_rust.Base.Int.{ℤ, pos, negsuc, pos_part, ◌≤ℤ◌, ◌+ℤ◌, ◌*ℤ◌, div_euclid, rem_euclid}
use ecapplog_rust.Timestamp.{era_of, day_of_era, month_of, day_of, date_of, civil_from_days}
use ecapplog_rust.Timestamp.Era.{year_start, year_of_era-eq, year_exists, day_of_year-eq}
use ecapplog_rust.Timestamp.Calendar.{IsDate, next_day}
use ecapplog_rust.Timestamp.Floor.{date_in, date_in-eq, floor_date, floor_date-next, rem_euclid-lt}

-- The days since 0000-03-01 on which the era is right: all from that date on, and before it only
-- the last day of each era.
abbrev pub OnTrack : ℤ → Type 0
OnTrack (pos n) = Unit {0}
OnTrack (negsuc k) = k % 146097 ≡ 0

era_of-OnTrack :
    (z : ℤ) → OnTrack z → (era_of z ≡ div_euclid z 146097) × (day_of_era z ≡ rem_euclid z 146097)
unfolding era_of day_of_era rem_euclid
era_of-OnTrack (pos n) h = ground arith
era_of-OnTrack (negsuc k) h = ground arith

-- Off those days the era is one too low, and the day of the era one era too high.
era_of_off :
    (z : ℤ)
    → ¬ OnTrack z
    → (era_of z +ℤ pos 1 ≡ div_euclid z 146097) × (day_of_era z ≡ rem_euclid z 146097 + 146097)
unfolding era_of day_of_era rem_euclid ◌+ℤ◌
era_of_off (pos n) h = absurd (h tt)
era_of_off (negsuc k) h = ground arith

year_one_era_up : (y : ℕ) (e f : ℤ) → e +ℤ pos 1 ≡ f → pos (y + 400) +ℤ e *ℤ 400 ≡ pos y +ℤ f *ℤ 400
unfolding ◌+ℤ◌ ◌*ℤ◌
year_one_era_up y e f h = rw (← h) (ground arith)

-- Off track, the source lands one day after the right one in the March-based year.
date_in_over :
    (e f : ℤ) (doe y : ℕ)
    → e +ℤ pos 1 ≡ f
    → y < 400
    → year_start y ≤ doe
    → doe < year_start (suc y)
    → date_in e (doe + 146097) ≡ date_of (pos y +ℤ f *ℤ 400) (doe - year_start y + 1)
unfolding date_in
date_in_over e f doe y up h lo hi =
    let ye = year_of_era-eq (doe + 146097) (y + 400) (omega arith) (omega arith) (omega arith) in
    rw (ye, year_one_era_up y e f up)
      (ap (date_of (pos y +ℤ f *ℤ 400))
        (omega (arith, day_of_year-eq (doe + 146097) (y + 400) (omega arith))))

abbrev moves : ℕ → Bool
moves d = not ((month_of d == month_of (d + 1)) && (day_of d == day_of (d + 1)))

moves_table : every_below moves 366 ≡ true
unfolding every_below month_of day_of
moves_table = refl

date_of-ne-suc : (y : ℤ) (d : ℕ) → d < 366 → date_of y (d + 1) ≢ date_of y d
unfolding date_of
date_of-ne-suc y d h e = ground (arith, every_below-at moves d 366 moves_table h)

civil_from_days_lem :
    (d : ℤ) → let z = d +ℤ pos 719468 in civil_from_days d ≡ date_in (era_of z) (day_of_era z)
unfolding civil_from_days date_in
civil_from_days_lem d = refl

on_track : (d : ℤ) → OnTrack (d +ℤ pos 719468) → civil_from_days d ≡ floor_date d
on_track d h =
    let z : ℤ = d +ℤ pos 719468 in
    civil_from_days_lem d ∙ rw ((era_of-OnTrack z h).0, (era_of-OnTrack z h).1) refl

off_track : (d : ℤ) → ¬ OnTrack (d +ℤ pos 719468) → civil_from_days d ≢ floor_date d
off_track d h e =
    let z : ℤ = d +ℤ pos 719468 in
    let r : ℕ = rem_euclid z 146097 in
    let f : ℤ = div_euclid z 146097 in
    let (y, below, lo, hi) = year_exists 400 r (rem_euclid-lt z) in
    let lands : civil_from_days d ≡ date_of (pos y +ℤ f *ℤ 400) (r - year_start y + 1) =
      civil_from_days_lem d
      ∙ rw ((era_of_off z h).1) (date_in_over (era_of z) f r y (era_of_off z h).0 below lo hi) in
    date_of-ne-suc (pos y +ℤ f *ℤ 400) (r - year_start y) (omega arith)
      (sym lands ∙ e ∙ date_in-eq f r y below lo hi)

OnTrack-dec : (z : ℤ) → Dec (OnTrack z)
OnTrack-dec (pos n) = yes tt
OnTrack-dec (negsuc k) = ℕ_discrete (k % 146097) 0

-- `civil_from_days` gives the right date exactly from 0000-03-01 on, and on the last day of each
-- era of 400 years before it. On every other day its date is wrong.
pub civil_from_days_iff : (d : ℤ) → (civil_from_days d ≡ floor_date d) ↔ OnTrack (d +ℤ pos 719468)
civil_from_days_iff d = (
  λ e. elim (OnTrack-dec (d +ℤ pos 719468)) [ yes h ↦ h | no h ↦ absurd (off_track d h e) ],
  on_track d,
)

after_era_zero : (d : ℤ) → negsuc 719467 ≤ℤ d → d +ℤ pos 719468 ≡ pos (pos_part (d +ℤ pos 719468))
unfolding ◌+ℤ◌
after_era_zero d h = ground arith

from_era_zero : (d : ℤ) → negsuc 719467 ≤ℤ d → civil_from_days d ≡ floor_date d
from_era_zero d h = on_track d (subst OnTrack (sym (after_era_zero d h)) tt)

next_in_range : (d : ℤ) → negsuc 719467 ≤ℤ d → negsuc 719467 ≤ℤ d +ℤ pos 1
unfolding ◌+ℤ◌
next_in_range d h = ground arith

epoch : civil_from_days (pos 0) ≡ record { year = pos 1970; month = 1; day = 1 }
unfolding civil_from_days
epoch = refl

-- From 0000-03-01 on, `civil_from_days` names a date that exists, and the day after is named by the
-- next date of the Gregorian calendar; day 0 is 1970-01-01.
pub civil_from_days-next :
    (d : ℤ)
    → negsuc 719467 ≤ℤ d
    → IsDate (civil_from_days d)
      × (next_day (civil_from_days d) ≡ civil_from_days (d +ℤ pos 1))
      × (civil_from_days (pos 0) ≡ record { year = pos 1970; month = 1; day = 1 })
civil_from_days-next d h = (
  subst IsDate (sym (from_era_zero d h)) (floor_date-next d).0,
  ap next_day (from_era_zero d h)
      ∙ (floor_date-next d).1
      ∙ sym (from_era_zero (d +ℤ pos 1) (next_in_range d h)),
  epoch,
)
