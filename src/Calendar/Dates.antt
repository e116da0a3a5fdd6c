-- ===== src/Calendar/Dates.antt =====
-- What option_signal_bot/market/trading_calendar.py uses of Python's `date`: a date is its ordinal,
-- where day 1 is the first of January of the year 1, a Monday.
use kh_optionbaz.Prelude.{
  ℕ, ◌+◌, ◌-◌, ◌*◌, ◌/◌, ◌%◌, Bool, ◌&&◌, ◌||◌, not, if◌then◌else◌, ltb, leb, ◌==◌, ℤ, pos,
  pos_part, ◌+ℤ◌, ◌-ℤ◌, ◌*ℤ◌, floor_div,
}

-- Python's `%` by a positive number.
unfoldable pub floor_mod : ℤ → ℕ → ℤ
unfolding floor_div
floor_mod x n = x -ℤ floor_div x n *ℤ pos n

-- The days before the first of January.
unfoldable pub days_before_year : ℕ → ℕ
days_before_year year = let y = year - 1 in 365 * y + y / 4 + y / 400 - y / 100

abbrev pub is_leap : ℕ → Bool
is_leap year = (year % 4 == 0) && (not (year % 100 == 0) || (year % 400 == 0))

-- The ordinal of a day of March.
unfoldable pub march_ordinal : ℕ → ℤ → ℤ
unfolding days_before_year
march_ordinal year day = pos (days_before_year year + (if is_leap year then 60 else 59)) +ℤ day

-- The year around `y` that holds a day.
abbrev pub year_near : ℕ → ℕ → ℕ
year_near n y =
    if leb n (days_before_year (y + 1))
    then y
    else if ltb (days_before_year (y + 2)) n
    then y + 2
    else y + 1

-- `date.year`: a guess from the mean length of a year, corrected.
unfoldable pub year_of : ℤ → ℕ
unfolding days_before_year
year_of day = let n = pos_part day in year_near n (400 * (n - 1) / 146097)

-- `date.weekday()`: Monday is 0.
unfoldable pub weekday : ℤ → ℤ
weekday day = floor_mod (day +ℤ pos 6) 7
