-- ===== src/Calendar/Lazy.antt =====
-- `defer_learning` of option_signal_bot/market/trading_calendar.py cannot be seen: each question is
-- answered as by a calendar that has learned at once.
use kh_optionbaz.Prelude.{
  ◌≡◌, refl, sym, ap, ◌∙◌, inl, inr, ℕ, zero, suc, Bool, true, false, Bool-cases, none,
  Option-cases, if◌then◌else◌, ℤ, pos, ◌+ℤ◌, ltb_ℤ,
}
use kh_optionbaz.Calendar.{
  TradingCalendar, Answer, known, failed, no_trading_day, is_weekend, holiday_in, negated,
  without_learner, learn_with, learn_if_needed, is_holiday, is_trading_day, search_step, search_day,
  next_trading_day, count_step, count_days, trading_days_between, span_of,
}

abbrev pub found_at : ℤ → Answer ℤ → Answer Bool → Answer ℤ
found_at cursor rest (known true) = known cursor
found_at cursor rest (known false) = rest
found_at cursor rest (failed e) = failed e

abbrev pub search_in : (ℤ → Answer Bool) → ℕ → ℤ → Answer ℤ
search_in t zero cursor = failed no_trading_day
search_in t (suc n) cursor =
    let rest = search_in t n (cursor +ℤ pos 1) in found_at cursor rest (t cursor)

abbrev pub counted_at : Answer ℕ → Answer Bool → Answer ℕ
counted_at (known n) (known b) = known (if b then suc n else n)
counted_at (failed e) (known b) = failed e
counted_at rest (failed e) = failed e

abbrev pub count_in : (ℤ → Answer Bool) → ℕ → ℤ → Answer ℕ
count_in t zero cursor = known 0
count_in t (suc n) cursor = let rest = count_in t n (cursor +ℤ pos 1) in counted_at rest (t cursor)

module _ {ℓ} {L : Type ℓ} where
  -- Whether a day is a trading day, from what is known.
  abbrev pub trading_in : TradingCalendar L → ℤ → Answer Bool
  trading_in c day = negated (if is_weekend day then known true else holiday_in c day)

  learnt_eta : (c : TradingCalendar L) → c.learner ≡ none → without_learner c ≡ c
  learnt_eta c e =
      ap
        (λ l. record {
          session = c.session;
          holidays = c.holidays;
          observed_from = c.observed_from;
          observed_to = c.observed_to;
          learner = l;
        })
        (sym e)

  -- What learns does not put off another learning.
  module _ (run : L → TradingCalendar L → TradingCalendar L)
      (k : (l : L) (c : TradingCalendar L) → (run l c).learner ≡ c.learner) where
    no_learner : (c : TradingCalendar L) → (learn_if_needed run c).learner ≡ none
    unfolding learn_if_needed
    no_learner c = elim (Option-cases c.learner) [
      | inl n ↦ rw n refl
      | inr (l, e) ↦ rw e (k l (without_learner c))
    ]

    pub learn_once :
        (c : TradingCalendar L)
        → learn_if_needed run (learn_if_needed run c) ≡ learn_if_needed run c
    unfolding learn_if_needed
    learn_once c =
        ap (λ o. learn_with run o (without_learner (learn_if_needed run c))) (no_learner c)
        ∙ learnt_eta (learn_if_needed run c) (no_learner c)

    is_trading_day_lem :
        (day : ℤ) (c : TradingCalendar L)
        → ((is_trading_day run day c).0 ≡ trading_in (learn_if_needed run c) day)
          × (learn_if_needed run (is_trading_day run day c).1 ≡ learn_if_needed run c)
    unfolding is_trading_day is_holiday
    is_trading_day_lem day c = elim (Bool-cases (is_weekend day)) [
      | inl b ↦ (rw b refl, rw b refl)
      | inr b ↦ (rw b refl, rw b (learn_once c))
    ]

    pub search_day_lem :
        (n : ℕ) (cursor : ℤ) (c : TradingCalendar L)
        → (search_day run n cursor c).0 ≡ search_in (trading_in (learn_if_needed run c)) n cursor
    unfolding search_day
    search_day_lem zero cursor c = refl
    search_day_lem (suc n) cursor c =
        let (a, b) = is_trading_day_lem cursor c in
        let rest = search_day_lem n (cursor +ℤ pos 1) (is_trading_day run cursor c).1 in
        stepped (is_trading_day run cursor c) _ ∙ rw (a, rest, b) refl
      where
        stepped :
            (asked : Answer Bool × TradingCalendar L) (rest : Answer ℤ × TradingCalendar L)
            → (search_step run cursor rest asked).0 ≡ found_at cursor rest.0 asked.0
        stepped (known true, after) rest = refl
        stepped (known false, after) rest = refl
        stepped (failed e, after) rest = refl

    pub count_days_lem :
        (n : ℕ) (cursor : ℤ) (c : TradingCalendar L)
        → (count_days run n cursor c).0 ≡ count_in (trading_in (learn_if_needed run c)) n cursor
    unfolding count_days
    count_days_lem zero cursor c = refl
    count_days_lem (suc n) cursor c =
        let (a, b) = is_trading_day_lem cursor c in
        let rest = count_days_lem n (cursor +ℤ pos 1) (is_trading_day run cursor c).1 in
        stepped _ (is_trading_day run cursor c) ∙ rw (a, rest, b) refl
      where
        stepped :
            (rest : Answer ℕ × TradingCalendar L) (asked : Answer Bool × TradingCalendar L)
            → (count_step run rest asked).0 ≡ counted_at rest.0 asked.0
        stepped (known n, after) (known b, _) = refl
        stepped (failed e, after) (known b, _) = refl
        stepped (known n, _) (failed e, after) = refl
        stepped (failed f, _) (failed e, after) = refl

    -- Putting off the learning cannot be seen in an answer: whether a day is one of trade, which is the
    -- next, and how many there are, is answered as by the calendar that has learned at once; what
    -- learns does not put off another learning.
    pub answers_lazy :
        (c : TradingCalendar L)
        → ((day : ℤ)
            → (is_trading_day run day c).0 ≡ (is_trading_day run day (learn_if_needed run c)).0)
          × ((day : ℤ)
              → (next_trading_day run day c).0
                ≡ (next_trading_day run day (learn_if_needed run c)).0)
          × ((start end : ℤ)
              → (trading_days_between run start end c).0
                ≡ (trading_days_between run start end (learn_if_needed run c)).0)
    unfolding next_trading_day trading_days_between
    answers_lazy c = (
      (λ day.
          (is_trading_day_lem day c).0
          ∙ ap (λ d. trading_in d day) (sym (learn_once c))
          ∙ sym (is_trading_day_lem day (learn_if_needed run c)).0),
      (λ day.
          search_day_lem 60 (day +ℤ pos 1) c
          ∙ ap (λ d. search_in (trading_in d) 60 (day +ℤ pos 1)) (sym (learn_once c))
          ∙ sym (search_day_lem 60 (day +ℤ pos 1) (learn_if_needed run c))),
      (λ start end. elim (Bool-cases (ltb_ℤ end start)) [
        | inl b ↦ rw b refl
        | inr b ↦ rw b (
            count_days_lem (span_of start end) start c
            ∙ ap (λ d. count_in (trading_in d) (span_of start end) start) (sym (learn_once c))
            ∙ sym (count_days_lem (span_of start end) start (learn_if_needed run c)))
      ]),
    )
