-- ===== src/Calendar/RoundTrip.antt =====
-- The two directions between the calendars in option_signal_bot/market/trading_calendar.py.
use mathlib.Core.Option.{some-injective}
use kh_optionbaz.Prelude.{
  ◌≡◌, inl, inr, refl, sym, ap, ◌∙◌, arith, ℕ, ◌+◌, ◌-◌, ◌*◌, ◌/◌, ◌%◌, ◌≤◌, ◌<◌, Bool, true, false,
  Bool-cases, some, if◌then◌else◌, leb, ℤ, pos, negsuc, ◌+ℤ◌, ◌-ℤ◌, ◌≤ℤ◌, ◌<ℤ◌, leb_ℤ, ltb_ℤ,
  int_laws, parts_eq, floor_div, *ℤ_parts, leb_ℤ→≤ℤ, leb_ℤ→<ℤ,
}
use package.kh_optionbaz.Calendar.Dates.{floor_mod, days_before_year, march_ordinal, year_of}
use package.kh_optionbaz.Calendar.Ordinal.{year_long, year_of_between, march_bounds}
use package.kh_optionbaz.Calendar.Jalali.{
  YearStart, JalaliDate, jalali_leap_and_offset, is_jalali_leap, jalali_to_gregorian,
  gregorian_to_jalali, day_in_year, jalali_on, start_of,
}
use package.kh_optionbaz.Calendar.Years.{year-IsFollowed, same_day}

-- The days of a month.
abbrev pub month_length : Bool → ℕ → ℕ
month_length leap m = if leb m 6 then 31 else if leb m 11 then 30 else if leap then 30 else 29

mod_31 : (n : ℕ) → floor_mod (pos n) 31 ≡ pos (n % 31)
unfolding floor_mod floor_div
mod_31 n = omega (int_laws, *ℤ_parts (pos (n / 31)) (pos 31))

mod_30 : (n : ℕ) → floor_mod (pos n) 30 ≡ pos (n % 30)
unfolding floor_mod floor_div
mod_30 n = omega (int_laws, *ℤ_parts (pos (n / 30)) (pos 30))

abbrev pub on_date : ℤ → ℤ → ℤ → JalaliDate
on_date jy m d = record { year = jy; month = m; day = d }

same_date : (jy a b c d : ℤ) → a ≡ c → b ≡ d → on_date jy a b ≡ on_date jy c d
same_date jy a b c d e f = rw (e, f) refl

module _ (leap : Bool) (m d : ℕ) (h : 1 ≤ m) (k : m ≤ 12) (l : 1 ≤ d)
    (u : d ≤ month_length leap m) where
  day_early : m ≤ 6 → day_in_year (pos m) (pos d) ≡ pos (31 * (m - 1) + (d - 1))
  day_early e =
      let b : leb_ℤ (pos m) (pos 6) ≡ true = ground arith in
      rw b (omega (int_laws, *ℤ_parts (pos m -ℤ pos 1) (pos 31)))

  day_late : 7 ≤ m → day_in_year (pos m) (pos d) ≡ pos (30 * (m - 7) + 186 + (d - 1))
  day_late e =
      let b : leb_ℤ (pos m) (pos 6) ≡ false = ground arith in
      rw b (omega (int_laws, *ℤ_parts (pos m -ℤ pos 7) (pos 30)))

  decode_early :
      (jy : ℤ) → m ≤ 6 → jalali_on jy (pos (31 * (m - 1) + (d - 1))) ≡ on_date jy (pos m) (pos d)
  unfolding floor_div
  decode_early jy e =
      let n : ℕ = 31 * (m - 1) + (d - 1) in
      let short : d ≤ 31 = ground arith in
      let b : ltb_ℤ (pos n) (pos 186) ≡ true = ground arith in
      rw b (same_date jy _ _ _ _ (omega int_laws) (omega (int_laws, parts_eq (mod_31 n))))

  decode_late :
      (jy : ℤ)
      → 7 ≤ m
      → jalali_on jy (pos (30 * (m - 7) + 186 + (d - 1))) ≡ on_date jy (pos m) (pos d)
  unfolding floor_div
  decode_late jy e =
      let n : ℕ = 30 * (m - 7) + 186 + (d - 1) in
      let short : d ≤ 30 = ground arith in
      let b : ltb_ℤ (pos n) (pos 186) ≡ false = ground arith in
      let r : pos n -ℤ pos 186 ≡ pos (30 * (m - 7) + (d - 1)) = omega int_laws in
      rw (b, r)
        (same_date jy _ _ _ _ (omega int_laws)
          (omega (int_laws, parts_eq (mod_30 (30 * (m - 7) + (d - 1))))))

  -- The day of the year is within the year, and is decoded again.
  decode :
      (jy : ℤ)
      → (n : ℕ) × (day_in_year (pos m) (pos d) ≡ pos n)
        × (n < (if leap then 366 else 365))
        × (jalali_on jy (pos n) ≡ on_date jy (pos m) (pos d))
  decode jy = elim (Bool-cases (leb m 6)) [
    | inl b ↦
        let e : m ≤ 6 = ground arith in
        (31 * (m - 1) + (d - 1), day_early e, ground arith, decode_early jy e)
    | inr b ↦
        let e : 7 ≤ m = ground arith in
        (30 * (m - 7) + 186 + (d - 1), day_late e, ground arith, decode_late jy e)
  ]

-- A day of the Jalali year `jy`, which starts in the Gregorian year `gy`.
module _ (jy : ℤ) (y z : YearStart) (here : jalali_leap_and_offset jy ≡ some y)
    (next : jalali_leap_and_offset (jy +ℤ pos 1) ≡ some z) (gy : ℕ) (e : y.gy ≡ gy)
    (f : z.gy ≡ gy + 1) (g : ℤ) (n : ℕ) (at : g ≡ start_of y +ℤ pos n) (before : g <ℤ start_of z)
    (r : pos gy ≡ jy +ℤ pos 621) where
  same_year_lem : year_of g ≡ gy → gregorian_to_jalali g ≡ some (jalali_on jy (pos n))
  unfolding gregorian_to_jalali
  same_year_lem o =
      let back : pos gy -ℤ pos 621 ≡ jy = omega (int_laws, parts_eq r) in
      let start : march_ordinal gy y.march ≡ start_of y = rw e refl in
      let b : ltb_ℤ g (start_of y) ≡ false =
        let ge : start_of y ≤ℤ g = omega (int_laws, parts_eq at) in ground arith in
      let diff : g -ℤ start_of y ≡ pos n = omega (int_laws, parts_eq at) in
      rw (o, back, here, start, b, diff) refl

  next_year_lem : year_of g ≡ gy + 1 → gregorian_to_jalali g ≡ some (jalali_on jy (pos n))
  unfolding gregorian_to_jalali
  next_year_lem o =
      let back : pos (gy + 1) -ℤ pos 621 ≡ jy +ℤ pos 1 = omega (int_laws, parts_eq r) in
      let again : jy +ℤ pos 1 -ℤ pos 1 ≡ jy = omega int_laws in
      let gone : gy + 1 - 1 ≡ gy = omega arith in
      let start : march_ordinal (gy + 1) z.march ≡ start_of z = rw f refl in
      let first : march_ordinal gy y.march ≡ start_of y = rw e refl in
      let b : ltb_ℤ g (start_of z) ≡ true = ground arith in
      let diff : g -ℤ start_of y ≡ pos n = omega (int_laws, parts_eq at) in
      rw (o, back, next, start, b, again, gone, here, first, diff) refl

  -- Whichever year the day falls in.
  either_year_lem :
      1 ≤ gy
      → pos 20 ≤ℤ y.march
      → y.march ≤ℤ pos 22
      → pos 20 ≤ℤ z.march
      → z.march ≤ℤ pos 22
      → gregorian_to_jalali g ≡ some (jalali_on jy (pos n))
  either_year_lem h a b c d =
      let (low, _) = march_bounds gy y.march a b in
      let first : march_ordinal gy y.march ≡ start_of y = rw e refl in
      let (_, high) = march_bounds (gy + 1) z.march c d in
      let last : march_ordinal (gy + 1) z.march ≡ start_of z = rw f refl in
      let length = year_long (gy + 1) (omega arith) in
      elim (Bool-cases (leb_ℤ g (pos (days_before_year (gy + 1))))) [
        | inl t ↦ same_year_lem (
            year_of_between gy g h (omega (int_laws, low, parts_eq first, parts_eq at))
              (leb_ℤ→≤ℤ g (pos (days_before_year (gy + 1))) t))
        | inr t ↦ next_year_lem (
            year_of_between (gy + 1) g (omega arith)
              (leb_ℤ→<ℤ g (pos (days_before_year (gy + 1))) t)
              (omega (int_laws, high, parts_eq last, before, length)))
      ]

leap_known :
    (jy : ℤ) (y : YearStart) (leap : Bool)
    → jalali_leap_and_offset jy ≡ some y
    → is_jalali_leap jy ≡ some leap
    → same_day y.leap (pos 0) ≡ leap
unfolding is_jalali_leap
leap_known jy y leap e h = some-injective _ _ (rw e at h)

within_year :
    (start end : ℤ) (n : ℕ) (leap long : Bool)
    → end ≡ start +ℤ (if long then pos 366 else pos 365)
    → long ≡ leap
    → n < (if leap then 366 else 365)
    → start +ℤ pos n <ℤ end
within_year start end n true true e h k = omega (int_laws, parts_eq e, k)
within_year start end n false false e h k = omega (int_laws, parts_eq e, k)
within_year start end n true false e h k = absurd cc
within_year start end n false true e h k = absurd cc

-- Every date of the Jalali calendar in the years -61 to 3175 has a day in the Gregorian calendar, and
-- that day is read back as the same date: a month after the sixth has 30 days, and the last one has
-- 30 only in a leap year.
pub gregorian_to_jalali-jalali_to_gregorian :
    (jy : ℤ) (m d : ℕ) (leap : Bool)
    → negsuc 60 ≤ℤ jy
    → jy <ℤ pos 3176
    → is_jalali_leap jy ≡ some leap
    → 1 ≤ m
    → m ≤ 12
    → 1 ≤ d
    → d ≤ month_length leap m
    → (g : ℤ) × (jalali_to_gregorian jy (pos m) (pos d) ≡ some g)
      × (gregorian_to_jalali g ≡ some (on_date jy (pos m) (pos d)))
unfolding jalali_to_gregorian
gregorian_to_jalali-jalali_to_gregorian jy m d leap a b l h k p u =
    let this = year-IsFollowed jy a (omega (arith, b)) in
    let later = year-IsFollowed (jy +ℤ pos 1) (omega (int_laws, a)) (omega (int_laws, b)) in
    let same : later.start ≡ this.next = some-injective _ _ (sym later.here ∙ this.after) in
    let (n, at, short, back) = decode leap m d h k p u jy in
    let gy = this.start.gy in
    let next_gy : this.next.gy ≡ gy + 1 =
      rw (← same) (let r = later.year in omega (int_laws, parts_eq r, parts_eq this.year)) in
    let end = this.length in
    let g : ℤ = start_of this.start +ℤ pos n in
    let before : g <ℤ start_of this.next =
      within_year _ _ n leap _ this.length (leap_known jy this.start leap this.here l) short in
    (
      g,
      rw (this.here, at) refl,
      either_year_lem jy this.start this.next this.here this.after gy refl next_gy g n refl before
            this.year (omega (int_laws, parts_eq this.year, a)) this.early this.late
            (rw (← same) later.early) (rw (← same) later.late)
          ∙ ap some back,
    )
