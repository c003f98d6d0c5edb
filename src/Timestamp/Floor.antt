-- ===== src/Timestamp/Floor.antt =====
-- src/timestamp.rs: the calendar by eras of 146097 days counted with floor division.
use ecapplog_rust.Base.{
  ℕ, zero, suc, ◌+◌, ◌-◌, ◌≤◌, ◌<◌, ◌≡◌, refl, ap, ◌∙◌, sym, Bool, true, false, arith, ltb,
  if◌then◌else◌,
}
use native.Mathlib.Decide.{dec_lt}
use ecapplog_rust.Base.Int.{ℤ, pos, negsuc, ◌+ℤ◌, ◌*ℤ◌, div_euclid, rem_euclid}
use ecapplog_rust.Timestamp.{Date, year_of_era, day_of_year, date_of}
use ecapplog_rust.Timestamp.Era.{year_start, year_of_era-eq, year_exists, day_of_year-eq}
use ecapplog_rust.Timestamp.Calendar.{is_leap, IsDate, next_day}
use ecapplog_rust.Timestamp.Civil.{year_length, date_of-next, date_of-IsDate}

-- The date of a day of an era.
unfoldable pub date_in : ℤ → ℕ → Date
date_in e doe = let yoe = year_of_era doe in date_of (pos yoe +ℤ e *ℤ 400) (day_of_year doe yoe)

abbrev pub floor_date : ℤ → Date
floor_date days = let z = days +ℤ pos 719468 in date_in (div_euclid z 146097) (rem_euclid z 146097)

euclid-suc :
    (a : ℤ)
    → let carries = ltb (rem_euclid a 146097 + 1) 146097 in
      (rem_euclid (a +ℤ pos 1) 146097 ≡ (if carries then rem_euclid a 146097 + 1 else 0))
      × (div_euclid (a +ℤ pos 1) 146097
          ≡ (if carries then div_euclid a 146097 else div_euclid a 146097 +ℤ pos 1))
unfolding ◌+ℤ◌ div_euclid rem_euclid
euclid-suc (pos n) = ground arith
euclid-suc (negsuc zero) = ground arith
euclid-suc (negsuc (suc n)) = ground arith

pub rem_euclid-lt : (a : ℤ) → rem_euclid a 146097 < 146097
unfolding rem_euclid
rem_euclid-lt (pos n) = omega arith
rem_euclid-lt (negsuc n) = omega arith

-- A March-based year of an era is as long as its February says.
year_length-eq :
    (y : ℕ) (e : ℤ)
    → y < 400
    → year_start y + year_length (is_leap (pos y +ℤ e *ℤ 400 +ℤ pos 1)) ≡ year_start (suc y)
unfolding is_leap ◌+ℤ◌ ◌*ℤ◌
year_length-eq y (pos n) h = ground arith
year_length-eq y (negsuc n) h = ground arith

add_years : (y : ℕ) (e : ℤ) → pos y +ℤ e *ℤ 400 +ℤ pos 1 ≡ pos (suc y) +ℤ e *ℤ 400
unfolding ◌+ℤ◌ ◌*ℤ◌
add_years y e = ground arith

add_eras : (e : ℤ) → pos 399 +ℤ e *ℤ 400 +ℤ pos 1 ≡ pos 0 +ℤ (e +ℤ pos 1) *ℤ 400
unfolding ◌+ℤ◌ ◌*ℤ◌
add_eras e = ground arith

-- A day of the `y`-th year of an era.
pub date_in-eq :
    (e : ℤ) (doe y : ℕ)
    → y < 400
    → year_start y ≤ doe
    → doe < year_start (suc y)
    → date_in e doe ≡ date_of (pos y +ℤ e *ℤ 400) (doe - year_start y)
unfolding date_in
date_in-eq e doe y h lo hi =
    let ye = year_of_era-eq doe y (omega arith) lo hi in
    rw (ye) (ap (date_of (pos y +ℤ e *ℤ 400)) (omega (arith, day_of_year-eq doe y lo)))

module _ (e : ℤ) (doe y : ℕ) (h : y < 400) (lo : year_start y ≤ doe)
    (hi : doe < year_start (suc y)) where
  abbrev year : ℤ
  year = pos y +ℤ e *ℤ 400

  within : next_day (date_of year (doe - year_start y)) ≡ (
      if ltb (doe - year_start y + 1) (year_length (is_leap (year +ℤ pos 1)))
      then date_of year (doe - year_start y + 1)
      else date_of (year +ℤ pos 1) 0)
  within = date_of-next year (doe - year_start y) (omega (arith, year_length-eq y e h))

  next_in :
      next_day (date_of year (doe - year_start y))
      ≡ (if ltb (doe + 1) 146097 then date_in e (doe + 1) else date_in (e +ℤ pos 1) 0)
  next_in = elim (dec_lt (doe + 1) (year_start (suc y))) [
    | yes p ↦ ground (arith, within, year_length-eq y e h, date_in-eq e (doe + 1) y h)
    | no p ↦ elim (dec_lt (suc y) 400) [
      | yes q ↦
          ground
            (arith, within, year_length-eq y e h, date_in-eq e (doe + 1) (suc y) q, add_years y e)
      | no q ↦
          let last : y ≡ 399 = omega arith in
          ground (arith, within, year_length-eq y e h, date_in-eq (e +ℤ pos 1) 0 0, add_eras e)
    ]
  ]

date_in-next :
    (e : ℤ) (doe : ℕ)
    → doe < 146097
    → next_day (date_in e doe)
      ≡ (if ltb (doe + 1) 146097 then date_in e (doe + 1) else date_in (e +ℤ pos 1) 0)
date_in-next e doe h =
    let (y, below, lo, hi) = year_exists 400 doe h in
    rw (date_in-eq e doe y below lo hi) (next_in e doe y below lo hi)

date_in-IsDate : (e : ℤ) (doe : ℕ) → doe < 146097 → IsDate (date_in e doe)
date_in-IsDate e doe h =
    let (y, below, lo, hi) = year_exists 400 doe h in
    rw (date_in-eq e doe y below lo hi) (
      date_of-IsDate (pos y +ℤ e *ℤ 400) (doe - year_start y)
        (omega (arith, year_length-eq y e below)))

shift_suc : (d : ℤ) → d +ℤ pos 1 +ℤ pos 719468 ≡ d +ℤ pos 719468 +ℤ pos 1
unfolding ◌+ℤ◌
shift_suc d = ground arith

date_in_if :
    (b : Bool) (e : ℤ) (n : ℕ)
    → date_in (if b then e else e +ℤ pos 1) (if b then n else 0)
      ≡ (if b then date_in e n else date_in (e +ℤ pos 1) 0)
date_in_if true e n = refl
date_in_if false e n = refl

-- The floor calendar names a real date on every day, and the next date on the next day.
pub floor_date-next :
    (d : ℤ) → IsDate (floor_date d) × (next_day (floor_date d) ≡ floor_date (d +ℤ pos 1))
floor_date-next d = (
  date_in-IsDate e r (rem_euclid-lt z),
  date_in-next e r (rem_euclid-lt z)
      ∙ rw (shift_suc d, (euclid-suc z).0, (euclid-suc z).1)
          (sym (date_in_if (ltb (r + 1) 146097) e (r + 1))),
)
  where
    z : ℤ
    z = d +ℤ pos 719468

    e : ℤ
    e = div_euclid z 146097

    r : ℕ
    r = rem_euclid z 146097
