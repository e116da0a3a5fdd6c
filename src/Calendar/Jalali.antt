-- ===== src/Calendar/Jalali.antt =====
-- The Jalali calendar of option_signal_bot/market/trading_calendar.py. `none` stands for the
-- ValueError of a year out of range.
use kh_optionbaz.Prelude.{
  ℕ, ◌-◌, Bool, ◌&&◌, ◌||◌, Option, none, some, List, [], ◌∷◌, if◌then◌else◌, ℤ, pos, negsuc,
  pos_part, leb_ℤ, ltb_ℤ, ◌+ℤ◌, ◌-ℤ◌, ◌*ℤ◌, floor_div,
}
use package.kh_optionbaz.Calendar.Dates.{floor_mod, march_ordinal, year_of}

-- `_BREAKS`, after its first entry.
abbrev pub first_break : ℤ
first_break = negsuc 60

abbrev pub breaks : List ℤ
breaks =
    pos 9
    ∷ pos 38
    ∷ pos 199
    ∷ pos 426
    ∷ pos 686
    ∷ pos 756
    ∷ pos 818
    ∷ pos 1111
    ∷ pos 1181
    ∷ pos 1210
    ∷ pos 1635
    ∷ pos 2060
    ∷ pos 2097
    ∷ pos 2192
    ∷ pos 2262
    ∷ pos 2324
    ∷ pos 2394
    ∷ pos 2456
    ∷ pos 3178
    ∷ []

-- Where the loop over the breaks stops.
pub record Cycle : Type 0 where
  pub jump : ℤ
  pub leap_j : ℤ
  pub jp : ℤ

unfoldable pub seek_cycle : ℤ → List ℤ → Cycle → Cycle
seek_cycle jy [] c = c
seek_cycle jy (jm ∷ rest) c =
    let jump = jm -ℤ c.jp in
    let leap_j = c.leap_j +ℤ (floor_div jump 33 *ℤ pos 8 +ℤ floor_div (floor_mod jump 33) 4) in
    let found = seek_cycle jy rest (record { jump = jump; leap_j = leap_j; jp = jm }) in
    if ltb_ℤ jy jm then record { jump = jump; leap_j = c.leap_j; jp = c.jp } else found

pub record YearStart : Type 0 where
  pub leap : ℤ
  pub gy : ℕ
  pub march : ℤ

abbrev pub equal : ℤ → ℤ → Bool
equal a b = leb_ℤ a b && leb_ℤ b a

-- The year of a cycle that was found. The last branch of the code, a remainder of -1, cannot happen.
unfoldable pub year_in : ℤ → Cycle → YearStart
year_in jy c =
    let gy = jy +ℤ pos 621 in
    let n = jy -ℤ c.jp in
    let late = equal (floor_mod c.jump 33) (pos 4) && equal (c.jump -ℤ n) (pos 4) in
    let leaps = c.leap_j +ℤ (floor_div n 33 *ℤ pos 8 +ℤ floor_div (floor_mod n 33 +ℤ pos 3) 4) in
    let leap_j = if late then leaps +ℤ pos 1 else leaps in
    let leap_g = floor_div gy 4 -ℤ floor_div ((floor_div gy 100 +ℤ pos 1) *ℤ pos 3) 4 -ℤ pos 150 in
    let m =
      if ltb_ℤ (c.jump -ℤ n) (pos 6)
      then n -ℤ c.jump +ℤ floor_div (c.jump +ℤ pos 4) 33 *ℤ pos 33
      else n in
    let leap = floor_mod (floor_mod (m +ℤ pos 1) 33 -ℤ pos 1) 4 in
    record {
      leap = if equal leap (negsuc 0) then pos 4 else leap;
      gy = pos_part gy;
      march = pos 20 +ℤ leap_j -ℤ leap_g;
    }

-- `_jalali_leap_and_offset`
unfoldable pub jalali_leap_and_offset : ℤ → Option YearStart
jalali_leap_and_offset jy =
    if ltb_ℤ jy first_break || leb_ℤ (pos 3178) jy
    then none
    else some (
        year_in jy
          (seek_cycle jy breaks (record { jump = pos 0; leap_j = negsuc 13; jp = first_break })))

abbrev leap_at : Option YearStart → Option Bool
leap_at none = none
leap_at (some y) = some (equal y.leap (pos 0))

unfoldable pub is_jalali_leap : ℤ → Option Bool
is_jalali_leap jy = leap_at (jalali_leap_and_offset jy)

-- The first of Farvardin.
abbrev pub start_of : YearStart → ℤ
start_of y = march_ordinal y.gy y.march

-- The days of the year before a day of a month.
abbrev pub day_in_year : ℤ → ℤ → ℤ
day_in_year jm jd =
    let before =
      if leb_ℤ jm (pos 6) then (jm -ℤ pos 1) *ℤ pos 31 else (jm -ℤ pos 7) *ℤ pos 30 +ℤ pos 186 in
    before +ℤ jd -ℤ pos 1

abbrev date_at : ℤ → ℤ → Option YearStart → Option ℤ
date_at jm jd none = none
date_at jm jd (some y) = some (start_of y +ℤ day_in_year jm jd)

unfoldable pub jalali_to_gregorian : ℤ → ℤ → ℤ → Option ℤ
jalali_to_gregorian jy jm jd = date_at jm jd (jalali_leap_and_offset jy)

pub record JalaliDate : Type 0 where
  pub year : ℤ
  pub month : ℤ
  pub day : ℤ

-- The month and the day of a day of a year.
abbrev pub jalali_on : ℤ → ℤ → JalaliDate
jalali_on jy n =
    let late = n -ℤ pos 186 in
    if ltb_ℤ n (pos 186)
    then record { year = jy; month = floor_div n 31 +ℤ pos 1; day = floor_mod n 31 +ℤ pos 1 }
    else record { year = jy; month = floor_div late 30 +ℤ pos 7; day = floor_mod late 30 +ℤ pos 1 }

-- `g` before the first of Farvardin belongs to the year before.
abbrev pub jalali_before : ℤ → ℤ → ℕ → Option YearStart → Option JalaliDate
jalali_before g jy year none = none
jalali_before g jy year (some y) = some (jalali_on jy (g -ℤ march_ordinal year y.march))

abbrev pub jalali_within : ℤ → ℤ → ℕ → Option YearStart → Option JalaliDate
jalali_within g jy year none = none
jalali_within g jy year (some y) =
    let start = march_ordinal year y.march in
    if ltb_ℤ g start
    then jalali_before g (jy -ℤ pos 1) (year - 1) (jalali_leap_and_offset (jy -ℤ pos 1))
    else some (jalali_on jy (g -ℤ start))

unfoldable pub gregorian_to_jalali : ℤ → Option JalaliDate
gregorian_to_jalali g =
    let jy = pos (year_of g) -ℤ pos 621 in
    jalali_within g jy (year_of g) (jalali_leap_and_offset jy)
