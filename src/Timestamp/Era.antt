-- ===== src/Timestamp/Era.antt =====
-- src/timestamp.rs: the year of the era. `year_start` is the plain count of the days before the
-- y-th March-based year, against which the division formula of the source is measured.
use ecapplog_rust.Base.{
  ℕ, zero, suc, ◌+◌, ◌-◌, ◌*◌, ◌/◌, ◌≤◌, ◌<◌, ◌≡◌, refl, ◌&&◌, Bool, true, arith, every_below,
  every_below-at, ◌==◌,
}
use ecapplog_rust.Timestamp.{year_of_era, day_of_year}
use native.Mathlib.Decide.{le_ind, dec_lt}
use native.Mathlib.Nat.{le_refl}

abbrev pub year_start : ℕ → ℕ
year_start y = 365 * y + y / 4 - y / 100 + y / 400

-- The dividend of `year_of_era`.
scaled : ℕ → ℕ
scaled d = d - d / 1460 + d / 36524 - d / 146096

scaled-suc : (d : ℕ) → scaled d ≤ scaled (suc d)
unfolding scaled
scaled-suc d = omega arith

year_of_era-suc : (d : ℕ) → year_of_era d ≤ year_of_era (suc d)
unfolding year_of_era scaled
year_of_era-suc d = omega (arith, scaled-suc d)

year_of_era_mono : (d e : ℕ) → d ≤ e → year_of_era d ≤ year_of_era e
year_of_era_mono d e =
    le_ind (λ m. year_of_era d ≤ year_of_era m) (le_refl _)
      (λ m le ih. omega (arith, year_of_era-suc m)) e

abbrev ends_agree : ℕ → Bool
ends_agree y = (year_of_era (year_start y) == y) && (year_of_era (year_start (suc y) - 1) == y)

ends_table : every_below ends_agree 800 ≡ true
unfolding every_below year_of_era
ends_table = refl

-- On a day of the y-th year the formula of the source gives y.
pub year_of_era-eq :
    (d y : ℕ) → y < 800 → year_start y ≤ d → d < year_start (suc y) → year_of_era d ≡ y
year_of_era-eq d y h lo hi = ground (
  arith,
  every_below-at ends_agree y 800 ends_table h,
  year_of_era_mono (year_start y) d lo,
  year_of_era_mono d (year_start (suc y) - 1),
)

-- Every day lies in a year.
pub year_exists :
    (n d : ℕ) → d < year_start n → (y : ℕ) × (y < n) × (year_start y ≤ d) × (d < year_start (suc y))
year_exists zero d h = absurd (omega arith)
year_exists (suc n) d h = elim (dec_lt d (year_start n)) [
  | yes p ↦ let (y, a, b, c) = year_exists n d p in (y, omega arith, b, c)
  | no p ↦ (n, omega arith, omega arith, h)
]

pub day_of_year-eq : (d y : ℕ) → year_start y ≤ d → day_of_year d y ≡ d - year_start y + y / 400
unfolding day_of_year
day_of_year-eq d y h = omega arith
