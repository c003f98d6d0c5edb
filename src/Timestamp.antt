-- ===== src/Timestamp.antt =====
-- src/timestamp.rs: the calendar arithmetic and the text of a timestamp.
use ecapplog_rust.Base.{
  ℕ, suc, ◌+◌, ◌-◌, ◌*◌, ◌/◌, ◌%◌, ◌∷◌, ◌++◌, length, replicate, ltb, leb, if◌then◌else◌,
}
use ecapplog_rust.Base.Int.{
  ℤ, pos, negsuc, pos_part, ◌+ℤ◌, ◌-ℤ◌, ◌*ℤ◌, ltb_ℤ, sub_ℕ, div_euclid, rem_euclid,
}
use ecapplog_rust.Base.Text.{Text, decimal}
pub mod Era
pub mod Calendar
pub mod Civil
pub mod Digits
pub mod Layout
pub mod Floor
pub mod Agreement
mod Tests

pub record Date : Type 0 where
  pub year : ℤ
  pub month : ℕ
  pub day : ℕ

-- The era as the source computes it: both branches go through `div_euclid`.
unfoldable pub era_of : ℤ → ℤ
unfolding div_euclid ◌-ℤ◌
era_of z = div_euclid (if ltb_ℤ z (pos 0) then z -ℤ pos 146096 else z) 146097

-- `doe` is never negative, so its part of the arithmetic is done in ℕ, where no difference below
-- is cut off at 0.
unfoldable pub day_of_era : ℤ → ℕ
unfolding era_of ◌-ℤ◌ ◌*ℤ◌
day_of_era z = pos_part (z -ℤ era_of z *ℤ 146097)

unfoldable pub year_of_era : ℕ → ℕ
year_of_era doe = (doe - doe / 1460 + doe / 36524 - doe / 146096) / 365

unfoldable pub day_of_year : ℕ → ℕ → ℕ
day_of_year doe yoe = doe - (365 * yoe + yoe / 4 - yoe / 100)

-- The March-based month of the year, 0 to 11.
unfoldable pub march_month : ℕ → ℕ
march_month doy = (5 * doy + 2) / 153

unfoldable pub day_of : ℕ → ℕ
unfolding march_month
day_of doy = doy - (153 * march_month doy + 2) / 5 + 1

unfoldable pub month_of : ℕ → ℕ
unfolding march_month
month_of doy = if ltb (march_month doy) 10 then march_month doy + 3 else march_month doy - 9

-- From the day of the March-based year, and the year in which that March lies, to the date.
unfoldable pub date_of : ℤ → ℕ → Date
date_of march_year doy = record {
  year = march_year +ℤ pos (if leb (month_of doy) 2 then 1 else 0);
  month = month_of doy;
  day = day_of doy;
}

unfoldable pub civil_from_days : ℤ → Date
unfolding day_of_era year_of_era day_of_year date_of day_of month_of ◌+ℤ◌
civil_from_days days =
    let z = days +ℤ pos 719468 in
    let doe = day_of_era z in
    let yoe = year_of_era doe in date_of (pos yoe +ℤ era_of z *ℤ 400) (day_of_year doe yoe)

-- `SystemTime` is the signed number of nanoseconds since the epoch. `duration_since(UNIX_EPOCH)`
-- gives the distance, as an error before the epoch.
pub data Since : Type 0 where
  ok err : ℕ → Since

abbrev duration_since : ℤ → Since
duration_since (pos n) = ok n
duration_since (negsuc n) = err (suc n)

abbrev signed : Since → ℤ
signed (ok d) = pos d
signed (err d) = sub_ℕ 0 d

unfoldable pub nanos_of : ℤ → ℤ
nanos_of time = signed (duration_since time)

unfoldable pub total_millis : ℤ → ℤ
unfolding div_euclid nanos_of
total_millis time = div_euclid (nanos_of time) 1000000

pub record Clock : Type 0 where
  pub date : Date
  pub hour : ℕ
  pub minute : ℕ
  pub second : ℕ
  pub millis : ℕ

-- The numbers that `format_utc` prints.
unfoldable pub clock_of : ℤ → Clock
unfolding total_millis civil_from_days
clock_of time =
    let ms = total_millis time in
    let secs = div_euclid ms 1000 in
    let secs_of_day = rem_euclid secs 86400 in
    record {
      date = civil_from_days (div_euclid secs 86400);
      hour = secs_of_day / 3600;
      minute = secs_of_day % 3600 / 60;
      second = secs_of_day % 60;
      millis = rem_euclid ms 1000;
    }

-- `{n:0w}`: zeros up to the width, behind the sign.
unfoldable pub zero_padded : ℕ → ℕ → Text
zero_padded w n = let digits = decimal n in replicate (w - length digits) b'0' ++ digits

unfoldable pub signed_padded : ℕ → ℤ → Text
signed_padded w (pos n) = zero_padded w n
signed_padded w (negsuc n) = b'-' ∷ zero_padded (w - 1) (suc n)

unfoldable pub print_clock : Clock → Text
unfolding signed_padded
print_clock c =
    signed_padded 4 c.date.year
    ++ b'-'
      ∷ (zero_padded 2 c.date.month
          ++ b'-'
            ∷ (zero_padded 2 c.date.day
                ++ b'T'
                  ∷ (zero_padded 2 c.hour
                      ++ b':'
                        ∷ (zero_padded 2 c.minute
                            ++ b':' ∷ (zero_padded 2 c.second ++ b'.' ∷ zero_padded 3 c.millis)))))

unfoldable pub format_utc : ℤ → Text
unfolding clock_of print_clock zero_padded
format_utc time = print_clock (clock_of time)
