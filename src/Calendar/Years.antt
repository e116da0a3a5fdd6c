-- ===== src/Calendar/Years.antt =====
-- The years of option_signal_bot/market/trading_calendar.py follow each other without a gap.
use kh_optionbaz.Prelude.{
  ◌≡◌, refl, ℕ, zero, suc, Bool, true, false, ◌&&◌, Option, none, some, if◌then◌else◌, ℤ, pos,
  negsuc, ◌+ℤ◌, ◌-ℤ◌, ◌*ℤ◌, leb_ℤ, ltb_ℤ, floor_div, arith, int_laws, eq_of_parts, +ℤ_parts,
  leb_ℤ→≤ℤ, leb_ℤ→<ℤ, Bool-cases, inl, inr, ◌≤ℤ◌, ◌<ℤ◌,
}
use package.kh_optionbaz.Calendar.Dates.{floor_mod, march_ordinal, days_before_year}
use package.kh_optionbaz.Calendar.Jalali.{
  YearStart, jalali_leap_and_offset, seek_cycle, year_in, start_of,
}

abbrev pub same_day : ℤ → ℤ → Bool
same_day a b = leb_ℤ a b && leb_ℤ b a

-- Whether a year ends where the next starts, and starts in March.
abbrev follows : ℤ → Option YearStart → Option YearStart → Bool
follows jy (some y) (some z) =
    same_day (start_of z) (start_of y +ℤ (if same_day y.leap (pos 0) then pos 366 else pos 365))
    && (leb_ℤ (pos 20) y.march && leb_ℤ y.march (pos 22) && same_day (pos y.gy) (jy +ℤ pos 621))
follows jy _ _ = false

year_follows : ℤ → Bool
year_follows jy = follows jy (jalali_leap_and_offset jy) (jalali_leap_and_offset (jy +ℤ pos 1))

all_follow : ℕ → ℤ → Bool
all_follow zero jy = true
all_follow (suc n) jy = year_follows jy && all_follow n (jy +ℤ pos 1)

run_from_61_before : all_follow 800 (negsuc 60) ≡ true
unfolding all_follow year_follows ◌+ℤ◌ ◌-ℤ◌ ◌*ℤ◌ floor_div floor_mod march_ordinal days_before_year
    jalali_leap_and_offset seek_cycle year_in
run_from_61_before = refl

run_from_739 : all_follow 800 (pos 739) ≡ true
unfolding all_follow year_follows ◌+ℤ◌ ◌-ℤ◌ ◌*ℤ◌ floor_div floor_mod march_ordinal days_before_year
    jalali_leap_and_offset seek_cycle year_in
run_from_739 = refl

run_from_1539 : all_follow 800 (pos 1539) ≡ true
unfolding all_follow year_follows ◌+ℤ◌ ◌-ℤ◌ ◌*ℤ◌ floor_div floor_mod march_ordinal days_before_year
    jalali_leap_and_offset seek_cycle year_in
run_from_1539 = refl

run_from_2339 : all_follow 838 (pos 2339) ≡ true
unfolding all_follow year_follows ◌+ℤ◌ ◌-ℤ◌ ◌*ℤ◌ floor_div floor_mod march_ordinal days_before_year
    jalali_leap_and_offset seek_cycle year_in
run_from_2339 = refl

both_true : (a b : Bool) → (a && b) ≡ true → (a ≡ true) × (b ≡ true)
both_true true true h = (refl, refl)
both_true true false h = absurd cc
both_true false b h = absurd cc

follow_in :
    (n : ℕ) (lo jy : ℤ)
    → all_follow n lo ≡ true
    → lo ≤ℤ jy
    → jy <ℤ lo +ℤ pos n
    → year_follows jy ≡ true
unfolding all_follow
follow_in zero lo jy h a b = absurd (omega (int_laws, a, b))
follow_in (suc n) lo jy h a b = elim (Bool-cases (leb_ℤ jy lo)) [
  | inl c ↦
      let same : lo ≡ jy = eq_of_parts lo jy (omega (arith, a, leb_ℤ→≤ℤ jy lo c)) in
      rw (← same) (both_true _ _ h).0
  | inr c ↦
      let above = leb_ℤ→<ℤ jy lo c in
      follow_in n (lo +ℤ pos 1) jy (both_true _ _ h).1 (omega (int_laws, above))
        (omega (int_laws, b))
]

-- What `follows` says.
pub record IsFollowed (jy : ℤ) : Type 0 where
  pub start : YearStart
  pub next : YearStart
  pub here : jalali_leap_and_offset jy ≡ some start
  pub after : jalali_leap_and_offset (jy +ℤ pos 1) ≡ some next
  pub length :
      start_of next ≡ start_of start +ℤ (if same_day start.leap (pos 0) then pos 366 else pos 365)
  pub early : pos 20 ≤ℤ start.march
  pub late : start.march ≤ℤ pos 22
  pub year : pos start.gy ≡ jy +ℤ pos 621

same_day_sound : (a b : ℤ) → same_day a b ≡ true → a ≡ b
same_day_sound a b h = ground (arith, eq_of_parts a b)

follows-IsFollowed :
    (jy : ℤ) (y z : Option YearStart)
    → jalali_leap_and_offset jy ≡ y
    → jalali_leap_and_offset (jy +ℤ pos 1) ≡ z
    → follows jy y z ≡ true
    → IsFollowed jy
follows-IsFollowed jy none z e f h = absurd cc
follows-IsFollowed jy (some y) none e f h = absurd cc
follows-IsFollowed jy (some y) (some z) e f h =
    let (a, rest) = both_true _ _ h in
    let (rest', d) = both_true _ _ rest in
    let (b, c) = both_true _ _ rest' in
    record {
      start = y;
      next = z;
      here = e;
      after = f;
      length = same_day_sound _ _ a;
      early = leb_ℤ→≤ℤ (pos 20) y.march b;
      late = leb_ℤ→≤ℤ y.march (pos 22) c;
      year = same_day_sound _ _ d;
    }

pub year-IsFollowed : (jy : ℤ) → negsuc 60 ≤ℤ jy → jy <ℤ pos 3177 → IsFollowed jy
unfolding year_follows
year-IsFollowed jy a b =
    follows-IsFollowed jy _ _ refl refl (elim (Bool-cases (ltb_ℤ jy (pos 739))) [
      | inl c ↦
          follow_in 800 (negsuc 60) jy run_from_61_before a
            (ground (arith, +ℤ_parts (negsuc 60) (pos 800)))
      | inr c ↦ elim (Bool-cases (ltb_ℤ jy (pos 1539))) [
        | inl d ↦
            follow_in 800 (pos 739) jy run_from_739 (ground arith)
              (ground (arith, +ℤ_parts (pos 739) (pos 800)))
        | inr d ↦ elim (Bool-cases (ltb_ℤ jy (pos 2339))) [
          | inl e ↦
              follow_in 800 (pos 1539) jy run_from_1539 (ground arith)
                (ground (arith, +ℤ_parts (pos 1539) (pos 800)))
          | inr e ↦ follow_in 838 (pos 2339) jy run_from_2339 (ground arith) (omega (int_laws, b))
        ]
      ]
    ])
