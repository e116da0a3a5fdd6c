-- ===== src/Tests/Calendars.antt =====
-- The theorems on the trading calendar at concrete inputs.
use kh_optionbaz.Prelude.{
  ◌+◌, ◌≡◌, ◌↔◌, ◌⊎◌, refl, arith, true, none, some, List, [], ◌∷◌, ℤ, pos, ◌+ℤ◌, ◌-ℤ◌, ◌*ℤ◌,
  length, member, distinct, sort_by,
}
use kh_optionbaz.Calendar.{
  TradingCalendar, learn_from_history, learn_if_needed, is_trading_day, next_trading_day,
  trading_days_between, jalali_to_gregorian, gregorian_to_jalali, is_jalali_leap,
  jalali_leap_and_offset, year_in, seek_cycle, is_holiday, is_weekend,
}
use kh_optionbaz.Calendar.Dates.{floor_mod}
use kh_optionbaz.Calendar.RoundTrip.{on_date, gregorian_to_jalali-jalali_to_gregorian}
use kh_optionbaz.Calendar.Learning.{IsGap, learn_from_history-holidays, learn_from_history-learner}
use kh_optionbaz.Calendar.Lazy.{trading_in, answers_lazy}
use kh_optionbaz.Calendar.Days.{Ends, IsEach, next_trading_day-Ends, trading_days_between-IsEach}

-- The last of Esfand 1403, a leap year.
gregorian_to_jalali-jalali_to_gregorian_example :
    (g : ℤ) × (jalali_to_gregorian (pos 1403) (pos 12) (pos 30) ≡ some g)
    × (gregorian_to_jalali g ≡ some (on_date (pos 1403) (pos 12) (pos 30)))
unfolding is_jalali_leap jalali_leap_and_offset year_in floor_mod ◌-ℤ◌ ◌+ℤ◌ seek_cycle ◌*ℤ◌
gregorian_to_jalali-jalali_to_gregorian_example =
    gregorian_to_jalali-jalali_to_gregorian (pos 1403) 12 30 true (omega arith) (omega arith) refl
      (omega arith) (omega arith) (omega arith) (omega arith)

-- A Saturday, the Sunday after it and the Tuesday after that.
abbrev history : List ℤ
history = pos 739496 ∷ pos 739493 ∷ pos 739494 ∷ []

abbrev fresh_calendar : TradingCalendar (List ℤ)
fresh_calendar = record {
  session = record { opens = 32400; closes = 45000 };
  holidays = [];
  observed_from = none;
  observed_to = none;
  learner = some history;
}

abbrev learn : List ℤ → TradingCalendar (List ℤ) → TradingCalendar (List ℤ)
learn days c = (learn_from_history days c).1

learn_from_history-holidays_example :
    ((day : ℤ)
      → (member day (learn_from_history history fresh_calendar).1.holidays ≡ true)
        ↔ ((member day fresh_calendar.holidays ≡ true) ⊎ IsGap history day))
    × (length (learn_from_history history fresh_calendar).1.holidays
        ≡ 0 + (learn_from_history history fresh_calendar).0)
learn_from_history-holidays_example = learn_from_history-holidays fresh_calendar history

answers_lazy_example :
    ((day : ℤ)
      → (is_trading_day learn day fresh_calendar).0
        ≡ (is_trading_day learn day (learn_if_needed learn fresh_calendar)).0)
    × ((day : ℤ)
        → (next_trading_day learn day fresh_calendar).0
          ≡ (next_trading_day learn day (learn_if_needed learn fresh_calendar)).0)
    × ((start end : ℤ)
        → (trading_days_between learn start end fresh_calendar).0
          ≡ (trading_days_between learn start end (learn_if_needed learn fresh_calendar)).0)
answers_lazy_example =
    answers_lazy learn (λ days c. learn_from_history-learner c days) fresh_calendar

next_trading_day-Ends_example :
    Ends
      (trading_in (learn_if_needed learn fresh_calendar))
      60
      (pos 739494 +ℤ pos 1)
      (next_trading_day learn (pos 739494) fresh_calendar).0
next_trading_day-Ends_example =
    next_trading_day-Ends learn (λ days c. learn_from_history-learner c days) (pos 739494)
      fresh_calendar

trading_days_between-IsEach_example :
    (ds : List ℤ) × (length ds ≡ 3)
    × IsEach
        (trading_in (learn_if_needed learn fresh_calendar))
        (pos 739493)
        (pos 739496 +ℤ pos 1)
        ds
unfolding trading_days_between ◌+ℤ◌ ◌-ℤ◌ is_trading_day is_holiday is_weekend floor_mod ◌*ℤ◌
    learn_if_needed learn_from_history sort_by distinct
trading_days_between-IsEach_example =
    trading_days_between-IsEach learn (λ days c. learn_from_history-learner c days) (pos 739493)
      (pos 739496) fresh_calendar 3 refl
