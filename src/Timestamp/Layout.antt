-- ===== src/Timestamp/Layout.antt =====
-- src/timestamp.rs: the text of a timestamp against the server's literal format
-- `yyyy-MM-ddThh:mm:ss.zzz`, and the check that examples/mock_server.rs makes of it.
use ecapplog_rust.Base.{
  ℕ, zero, suc, ◌+◌, ◌-◌, ◌*◌, ◌≤◌, ◌<◌, ◌≡◌, refl, ap, [], ◌∷◌, Option, none, some, Bool, true,
  ◌&&◌, ◌==◌, leb, arith, length, get_or, if◌then◌else◌,
}
use ecapplog_rust.Base.Int.{
  ℤ, pos, negsuc, pos_part, neg_part, ◌≤ℤ◌, ◌+ℤ◌, ◌*ℤ◌, div_euclid, rem_euclid,
}
use ecapplog_rust.Base.Text.{Text}
use ecapplog_rust.Timestamp.{
  Clock, civil_from_days, total_millis, clock_of, print_clock, format_utc,
}
use ecapplog_rust.Timestamp.Calendar.{days_in_month}
use ecapplog_rust.Timestamp.Agreement.{civil_from_days-next}
use ecapplog_rust.Timestamp.Digits.{fixed, zero_padded-fixed}

-- A clock reading that the format can carry.
pub record IsReading (c : Clock) : Type 0 where
  pub year_in : (neg_part c.date.year ≡ 0) × (pos_part c.date.year ≤ 9999)
  pub date_in : (1 ≤ c.date.month) × (c.date.month ≤ 12) × (1 ≤ c.date.day) × (c.date.day ≤ 31)
  pub hour_in : c.hour < 24
  pub minute_in : c.minute < 60
  pub second_in : c.second < 60
  pub millis_in : c.millis < 1000

-- The number that a run of digits stands for, or nothing if a byte is no digit.
unfoldable pub read_digits : ℕ → ℕ → Text → Option (ℕ × Text)
read_digits zero acc t = some (acc, t)
read_digits (suc w) acc [] = none
read_digits (suc w) acc (c ∷ t) =
    let rest = read_digits w (acc * 10 + (c - b'0')) t in
    if leb b'0' c && leb c b'9' then rest else none

abbrev expect : ℕ → Text → Option Text
expect b [] = none
expect b (c ∷ t) = if c == b then some t else none

infixl 5 ◌>>=◌
abbrev ◌>>=◌ {ℓ κ} : {A : Type ℓ} {B : Type κ} → Option A → (A → Option B) → Option B
none >>= f = none
some a >>= f = f a

-- A reader of the literal format: it accepts nothing after the third fractional digit.
unfoldable pub read_clock : Text → Option Clock
read_clock t = do
  (y, t) ← read_digits 4 0 t
  t ← expect b'-' t
  (mo, t) ← read_digits 2 0 t
  t ← expect b'-' t
  (d, t) ← read_digits 2 0 t
  t ← expect b'T' t
  (h, t) ← read_digits 2 0 t
  t ← expect b':' t
  (mi, t) ← read_digits 2 0 t
  t ← expect b':' t
  (s, t) ← read_digits 2 0 t
  t ← expect b'.' t
  (ms, t) ← read_digits 3 0 t
  elim t [
    | [] ↦ some (record {
      date = record { year = pos y; month = mo; day = d };
      hour = h;
      minute = mi;
      second = s;
      millis = ms;
    })
    | _ ↦ none
  ]

-- What the mock server asks of a timestamp before it calls it plausible.
unfoldable pub plausible : Text → Bool
plausible time = (length time == 23) && ((get_or time 10 0 == b'T') && (get_or time 19 0 == b'.'))

abbrev layout : ℕ → ℕ → ℕ → ℕ → ℕ → ℕ → ℕ → Text
layout y mo d h mi s ms = fixed 4 y (
    b'-'
    ∷ fixed 2 mo (
        b'-'
        ∷ fixed 2 d
            (b'T' ∷ fixed 2 h (b':' ∷ fixed 2 mi (b':' ∷ fixed 2 s (b'.' ∷ fixed 3 ms []))))))

print_clock-layout :
    (c : Clock) (y : ℕ)
    → c.date.year ≡ pos y
    → IsReading c
    → print_clock c ≡ layout y c.date.month c.date.day c.hour c.minute c.second c.millis
unfolding print_clock
print_clock-layout c y e v = simp (
  e,
  zero_padded-fixed 3 y (omega (arith, ap pos_part e)),
  zero_padded-fixed 1 c.date.month (omega arith),
  zero_padded-fixed 1 c.date.day (omega arith),
  zero_padded-fixed 1 c.hour (omega arith),
  zero_padded-fixed 1 c.minute (omega arith),
  zero_padded-fixed 1 c.second (omega arith),
  zero_padded-fixed 2 c.millis (omega arith),
)

plausible-layout : (y mo d h mi s ms : ℕ) → plausible (layout y mo d h mi s ms) ≡ true
unfolding plausible
plausible-layout y mo d h mi s ms = refl

module _ (n : ℕ) (t : Text) where
  read_two : n < 100 → read_digits 2 0 (fixed 2 n t) ≡ some (n, t)
  unfolding read_digits
  read_two h = ground arith

  read_three : n < 1000 → read_digits 3 0 (fixed 3 n t) ≡ some (n, t)
  unfolding read_digits
  read_three h = ground arith

  read_four : n < 10000 → read_digits 4 0 (fixed 4 n t) ≡ some (n, t)
  unfolding read_digits
  read_four h = ground arith

read_clock-layout :
    (c : Clock) (y : ℕ)
    → c.date.year ≡ pos y
    → IsReading c
    → read_clock (layout y c.date.month c.date.day c.hour c.minute c.second c.millis) ≡ some c
unfolding read_clock
read_clock-layout c y e v =
    rw
      (
        read_four y _ (omega (arith, ap pos_part e)),
        read_two c.date.month _ (omega arith),
        read_two c.date.day _ (omega arith),
        read_two c.hour _ (omega arith),
        read_two c.minute _ (omega arith),
        read_two c.second _ (omega arith),
        read_three c.millis _ (omega arith),
      )
      (ground arith)

nat_year : (z : ℤ) → neg_part z ≡ 0 → z ≡ pos (pos_part z)
nat_year z h = ground arith

-- Printing a clock reading of the years 0 to 9999 and reading it back gives the reading.
pub read_clock-print_clock : (c : Clock) → IsReading c → read_clock (print_clock c) ≡ some c
read_clock-print_clock c v =
    let e = nat_year c.date.year v.year_in.0 in
    rw (print_clock-layout c _ e v) (read_clock-layout c _ e v)

abbrev pub day_number : ℤ → ℤ
day_number time = div_euclid (div_euclid (total_millis time) 1000) 86400

abbrev pub millis_of_day : Clock → ℕ
millis_of_day c = ((c.hour * 60 + c.minute) * 60 + c.second) * 1000 + c.millis

-- The clock reading is in range, and it is the time with what is finer than a millisecond cut off,
-- before the epoch too: the millisecond that is printed begins no later than the time, and the next
-- one after it.
pub clock_of_split :
    (time : ℤ)
    → let c = clock_of time in
      (c.hour < 24)
      × (c.minute < 60)
      × (c.second < 60)
      × (c.millis < 1000)
      × ((day_number time *ℤ 86400000 +ℤ pos (millis_of_day c)) *ℤ 1000000 ≤ℤ time)
      × (time +ℤ pos 1 ≤ℤ (day_number time *ℤ 86400000 +ℤ pos (millis_of_day c + 1)) *ℤ 1000000)
unfolding clock_of total_millis rem_euclid ◌+ℤ◌ ◌*ℤ◌
clock_of_split (pos n) = ground arith
clock_of_split (negsuc n) = ground arith

month_length_le : (y : ℤ) (m : ℕ) → days_in_month y m ≤ 31
unfolding days_in_month
month_length_le y m = ground arith

-- The years that the format can carry, on the days on which the calendar arithmetic is right.
abbrev pub IsPrintable : ℤ → Type 0
IsPrintable time =
    (negsuc 719467 ≤ℤ day_number time)
    × (neg_part (civil_from_days (day_number time)).year ≡ 0)
    × (pos_part (civil_from_days (day_number time)).year ≤ 9999)

date_of_clock : (time : ℤ) → (clock_of time).date ≡ civil_from_days (day_number time)
unfolding clock_of
date_of_clock time = refl

clock_of-IsReading : (time : ℤ) → IsPrintable time → IsReading (clock_of time)
clock_of-IsReading time v =
    let d = (civil_from_days-next (day_number time) v.0).0 in
    let s = clock_of_split time in
    let e = date_of_clock time in
    record {
      year_in = rw e (v.1, v.2);
      date_in = rw e (
          omega (
            arith,
            d,
            month_length_le (civil_from_days (day_number time)).year
                (civil_from_days (day_number time)).month,
          ));
      hour_in = s.0;
      minute_in = s.1;
      second_in = s.2;
      millis_in = s.3;
    }

-- For a time in the years 0 to 9999, from 0000-03-01 on, the text passes the mock server's check
-- (23 bytes, with `T` and `.` in place), and a reader of the server's literal format that accepts
-- nothing after the third fractional digit reads the clock back from it,
-- whose date is that of `civil_from_days`.
pub read_clock-format_utc :
    (time : ℤ)
    → IsPrintable time
    → (plausible (format_utc time) ≡ true)
      × (read_clock (format_utc time) ≡ some (clock_of time))
      × ((clock_of time).date ≡ civil_from_days (day_number time))
unfolding format_utc
read_clock-format_utc time v =
    let w = clock_of-IsReading time v in
    let e = nat_year (clock_of time).date.year w.year_in.0 in
    let e₀ = date_of_clock time in
    (
      rw (print_clock-layout (clock_of time) _ e w) (plausible-layout _ _ _ _ _ _ _),
      read_clock-print_clock (clock_of time) w,
      e₀,
    )
