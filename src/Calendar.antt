-- ===== src/Calendar.antt =====
-- option_signal_bot/market/trading_calendar.py: which days the market trades. A date is its ordinal
-- and a time of the day a number. What learns the calendar is a value `l` of a type of its own, and
-- `run l` what it does with the calendar.
pub mod Dates
mod Jalali
mod Ordinal
pub mod Years
pub mod RoundTrip
pub mod Learning
pub mod Lazy
pub mod Days
unfoldable pub use Jalali.*
use kh_optionbaz.Prelude.{
  ℕ, zero, suc, ◌+◌, ◌==◌, Bool, true, false, not, ◌&&◌, ◌||◌, leb, Option, none, some, List, [],
  ◌∷◌, ◌++◌, if◌then◌else◌, ltb_ℤ, leb_ℤ, ℤ, pos, pos_part, ◌+ℤ◌, ◌-ℤ◌, min_ℤ, max_ℤ, same, member,
  distinct, sort_by, length,
}
use kh_optionbaz.Calendar.Dates.{weekday}

-- A year that the Jalali calendar does not reach, and no trading day in sixty.
pub data Failure : Type 0 where
  year_out_of_range no_trading_day : Failure

pub data Answer {ℓ} (A : Type ℓ) : Type ℓ where
  known : A → Answer A
  failed : Failure → Answer A

-- `FIXED_JALALI_HOLIDAYS`: the month and the day.
abbrev pub fixed_days : List (ℤ × ℤ)
fixed_days =
    (pos 1, pos 1)
    ∷ (pos 1, pos 2)
    ∷ (pos 1, pos 3)
    ∷ (pos 1, pos 4)
    ∷ (pos 1, pos 12)
    ∷ (pos 1, pos 13)
    ∷ (pos 3, pos 14)
    ∷ (pos 3, pos 15)
    ∷ (pos 11, pos 22)
    ∷ (pos 12, pos 29)
    ∷ []

abbrev in_days : ℤ → ℤ → List (ℤ × ℤ) → Bool
in_days m d [] = false
in_days m d ((m', d') ∷ rest) = (same m m' && same d d') || in_days m d rest

abbrev fixed_on : Option JalaliDate → Answer Bool
fixed_on none = failed year_out_of_range
fixed_on (some j) = known (in_days j.month j.day fixed_days)

unfoldable pub is_fixed_holiday : ℤ → Answer Bool
unfolding gregorian_to_jalali
is_fixed_holiday day = fixed_on (gregorian_to_jalali day)

unfoldable pub is_weekend : ℤ → Bool
unfolding weekday
is_weekend day = same (weekday day) (pos 3) || same (weekday day) (pos 4)

pub record MarketSession : Type 0 where
  pub opens : ℕ
  pub closes : ℕ

abbrev pub in_session : MarketSession → ℕ → Bool
in_session s moment = leb s.opens moment && leb moment s.closes

-- What the file of the cache holds.
pub record Learnt : Type 0 where
  pub holidays : List ℤ
  pub observed_from : Option ℤ
  pub observed_to : Option ℤ

pub record TradingCalendar {ℓ} (L : Type ℓ) : Type ℓ where
  pub session : MarketSession
  pub holidays : List ℤ
  pub observed_from : Option ℤ
  pub observed_to : Option ℤ
  pub learner : Option L

abbrev earlier : Option ℤ → ℤ → ℤ
earlier none first = first
earlier (some day) first = min_ℤ day first

abbrev later : Option ℤ → ℤ → ℤ
later none last = last
later (some day) last = max_ℤ day last

-- Whether the loop of `learn_from_history` adds a day.
abbrev pub is_gap : List ℤ → List ℤ → ℤ → Bool
is_gap days holidays day =
    not (is_weekend day) && not (member day days) && not (member day holidays)

-- The loop, over `n` days from `cursor` on: the holidays, and how many are new.
unfoldable pub learn_days : List ℤ → ℕ → ℤ → List ℤ → List ℤ × ℕ
learn_days days zero cursor holidays = (holidays, 0)
learn_days days (suc n) cursor holidays =
    let gap = is_gap days holidays cursor in
    let (all, learned) =
      learn_days days n (cursor +ℤ pos 1) (if gap then cursor ∷ holidays else holidays) in
    (all, if gap then suc learned else learned)

abbrev pub last_day : ℤ → List ℤ → ℤ
last_day day [] = day
last_day day (next ∷ days) = last_day next days

-- The days from the first to the last, both included.
abbrev pub span_of : ℤ → ℤ → ℕ
span_of first last = pos_part (last -ℤ first +ℤ pos 1)

abbrev or_given : Option ℤ → Option ℤ → Option ℤ
or_given none old = old
or_given (some day) old = some day

abbrev observed : Option ℤ → ℤ → Bool
observed none day = false
observed (some last) day = leb_ℤ day last

abbrev and_answer : Answer Bool → Bool → Answer Bool
and_answer (known b) inside = known (b && inside)
and_answer (failed e) inside = failed e

abbrev pub negated : Answer Bool → Answer Bool
negated (known b) = known (not b)
negated (failed e) = failed e

module _ {ℓ} {L : Type ℓ} where
  -- `_load_cache`, where the file is readable.
  unfoldable pub load_cache : Option Learnt → TradingCalendar L → TradingCalendar L
  load_cache none c = c
  load_cache (some data_in) c = record {
    session = c.session;
    holidays = data_in.holidays ++ c.holidays;
    observed_from = or_given data_in.observed_from c.observed_from;
    observed_to = or_given data_in.observed_to c.observed_to;
    learner = c.learner;
  }

  -- `save`
  unfoldable pub save : TradingCalendar L → Learnt
  save c = record {
    holidays = sort_by ltb_ℤ (distinct c.holidays);
    observed_from = c.observed_from;
    observed_to = c.observed_to;
  }

  abbrev pub learn_sorted : List ℤ → TradingCalendar L → ℕ × TradingCalendar L
  learn_sorted [] c = (0, c)
  learn_sorted (day ∷ []) c = (0, c)
  learn_sorted (first ∷ next ∷ days) c =
      let last = last_day next days in
      let (holidays, learned) =
        learn_days (first ∷ next ∷ days) (span_of first last) first c.holidays in
      (
        learned,
        record {
          session = c.session;
          holidays = holidays;
          observed_from = some (earlier c.observed_from first);
          observed_to = some (later c.observed_to last);
          learner = c.learner;
        },
      )

  unfoldable pub learn_from_history : List ℤ → TradingCalendar L → ℕ × TradingCalendar L
  unfolding learn_days
  learn_from_history days c = learn_sorted (sort_by ltb_ℤ (distinct days)) c

  -- `learn_from_client`: the history is `none` where the client fails.
  unfoldable pub learn_from_client : Option (List ℤ) → TradingCalendar L → ℕ × TradingCalendar L
  unfolding learn_from_history
  learn_from_client none c = (0, c)
  learn_from_client (some days) c = learn_from_history days c

  unfoldable pub add_holidays : List ℤ → TradingCalendar L → TradingCalendar L
  add_holidays days c = record {
    session = c.session;
    holidays = days ++ c.holidays;
    observed_from = c.observed_from;
    observed_to = c.observed_to;
    learner = c.learner;
  }

  unfoldable pub defer_learning : L → TradingCalendar L → TradingCalendar L
  defer_learning l c = record {
    session = c.session;
    holidays = c.holidays;
    observed_from = c.observed_from;
    observed_to = c.observed_to;
    learner = some l;
  }

  abbrev pub without_learner : TradingCalendar L → TradingCalendar L
  without_learner c = record {
    session = c.session;
    holidays = c.holidays;
    observed_from = c.observed_from;
    observed_to = c.observed_to;
    learner = none;
  }

  -- The end of `is_holiday`, which only reads.
  abbrev pub holiday_in : TradingCalendar L → ℤ → Answer Bool
  holiday_in c day =
      if member day c.holidays
      then known true
      else if observed c.observed_to day
      then known false
      else is_fixed_holiday day

  module _ (run : L → TradingCalendar L → TradingCalendar L) where
    abbrev pub learn_with : Option L → TradingCalendar L → TradingCalendar L
    learn_with none c = c
    learn_with (some l) c = run l c

    -- `_learn_if_needed`
    unfoldable pub learn_if_needed : TradingCalendar L → TradingCalendar L
    learn_if_needed c = learn_with c.learner (without_learner c)

    unfoldable pub is_holiday : ℤ → TradingCalendar L → Answer Bool × TradingCalendar L
    is_holiday day c =
        let learnt = learn_if_needed c in
        if is_weekend day then (known true, c) else (holiday_in learnt day, learnt)

    unfoldable pub is_trading_day : ℤ → TradingCalendar L → Answer Bool × TradingCalendar L
    is_trading_day day c = let (answer, after) = is_holiday day c in (negated answer, after)

    unfoldable pub is_open : ℤ → ℕ → TradingCalendar L → Answer Bool × TradingCalendar L
    is_open day moment c =
        let (answer, after) = is_trading_day day c in
        (and_answer answer (in_session c.session moment), after)

    abbrev pub search_step :
        ℤ
        → Answer ℤ × TradingCalendar L
        → Answer Bool × TradingCalendar L
        → Answer ℤ × TradingCalendar L
    search_step cursor rest (known true, after) = (known cursor, after)
    search_step cursor rest (known false, after) = rest
    search_step cursor rest (failed e, after) = (failed e, after)

    -- The loop of `next_trading_day`, over `n` days from `cursor` on.
    unfoldable pub search_day : ℕ → ℤ → TradingCalendar L → Answer ℤ × TradingCalendar L
    search_day zero cursor c = (failed no_trading_day, c)
    search_day (suc n) cursor c =
        let asked = is_trading_day cursor c in
        let rest = search_day n (cursor +ℤ pos 1) asked.1 in search_step cursor rest asked

    unfoldable pub next_trading_day : ℤ → TradingCalendar L → Answer ℤ × TradingCalendar L
    unfolding search_day
    next_trading_day day c = search_day 60 (day +ℤ pos 1) c

    abbrev pub count_step :
        Answer ℕ × TradingCalendar L
        → Answer Bool × TradingCalendar L
        → Answer ℕ × TradingCalendar L
    count_step (known count, after) (known b, _) = (known (if b then suc count else count), after)
    count_step (failed e, after) (known b, _) = (failed e, after)
    count_step rest (failed e, after) = (failed e, after)

    -- The loop of `trading_days_between`.
    unfoldable pub count_days : ℕ → ℤ → TradingCalendar L → Answer ℕ × TradingCalendar L
    count_days zero cursor c = (known 0, c)
    count_days (suc n) cursor c =
        let asked = is_trading_day cursor c in
        let rest = count_days n (cursor +ℤ pos 1) asked.1 in count_step rest asked

    unfoldable pub trading_days_between : ℤ → ℤ → TradingCalendar L → Answer ℕ × TradingCalendar L
    unfolding count_days
    trading_days_between start end c =
        if ltb_ℤ end start then (known 0, c) else count_days (span_of start end) start c
