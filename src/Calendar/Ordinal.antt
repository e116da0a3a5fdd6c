-- ===== src/Calendar/Ordinal.antt =====
-- `year_of` finds the year of a date.
use kh_optionbaz.Prelude.{
  ◌≡◌, inl, inr, arith, ℕ, ◌+◌, ◌-◌, ◌*◌, ◌/◌, ◌≤◌, ◌<◌, ℤ, pos, negsuc, ◌<ℤ◌, ◌≤ℤ◌, int_laws,
  Bool-cases,
}
use package.kh_optionbaz.Calendar.Dates.{
  days_before_year, march_ordinal, is_leap, year_near, year_of,
}

days_mono : (a b : ℕ) → a < b → days_before_year (a + 1) ≤ days_before_year b
unfolding days_before_year
days_mono a b h = omega arith

-- One year more or less than the guess is enough.
guess_low : (n y : ℕ) → 146097 * y ≤ 400 * n → days_before_year y < n + 1
unfolding days_before_year
guess_low n y h = omega arith

guess_high : (n y : ℕ) → 400 * n < 146097 * (y + 1) → n + 1 ≤ days_before_year (y + 3)
unfolding days_before_year
guess_high n y h = omega arith

near_bounds :
    (n y : ℕ)
    → days_before_year y < n
    → n ≤ days_before_year (y + 3)
    → (days_before_year (year_near n y) < n) × (n ≤ days_before_year (year_near n y + 1))
near_bounds n y a b = ground arith

same_year :
    (y z n : ℕ)
    → days_before_year y < n
    → n ≤ days_before_year (y + 1)
    → days_before_year z < n
    → n ≤ days_before_year (z + 1)
    → z ≡ y
same_year y z n a b c d = ground (arith, days_mono y z, days_mono z y)

-- The days of a year belong to it.
pub year_of_in :
    (year n : ℕ)
    → 1 ≤ year
    → days_before_year year < n
    → n ≤ days_before_year (year + 1)
    → year_of (pos n) ≡ year
unfolding year_of
year_of_in year n h a b =
    let y : ℕ = 400 * (n - 1) / 146097 in
    let (c, d) =
      near_bounds n y (omega (arith, guess_low (n - 1) y (omega arith), a))
        (omega (arith, guess_high (n - 1) y (omega arith), a)) in
    same_year year (year_near n y) n a b c d

pub year_long : (y : ℕ) → 1 ≤ y → days_before_year y + 365 ≤ days_before_year (y + 1)
unfolding days_before_year
year_long y h = omega arith

pub year_of_between :
    (year : ℕ) (g : ℤ)
    → 1 ≤ year
    → pos (days_before_year year) <ℤ g
    → g ≤ℤ pos (days_before_year (year + 1))
    → year_of g ≡ year
year_of_between year (pos n) h a b = year_of_in year n h (omega (arith, a)) (omega (arith, b))
year_of_between year (negsuc n) h a b = absurd (omega (arith, a))

-- A day of March up to the 22nd lies in the first 82 days of its year.
pub march_bounds :
    (year : ℕ) (day : ℤ)
    → pos 20 ≤ℤ day
    → day ≤ℤ pos 22
    → (pos (days_before_year year) <ℤ march_ordinal year day)
      × (march_ordinal year day ≤ℤ pos (days_before_year year + 82))
unfolding march_ordinal
march_bounds year day a b = elim (Bool-cases (is_leap year)) [
  | inl c ↦ rw c (omega (int_laws, a), omega (int_laws, b))
  | inr c ↦ rw c (omega (int_laws, a), omega (int_laws, b))
]
