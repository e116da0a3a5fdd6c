-- ===== src/Calendar/Days.antt =====
-- `next_trading_day` and `trading_days_between` of option_signal_bot/market/trading_calendar.py.
use kh_optionbaz.Prelude.{
  ◌≡◌, refl, ap, ◌∙◌, ◌⊎◌, inl, inr, arith, ℕ, zero, suc, Bool, true, false, Bool-cases, List, [],
  ◌∷◌, All, length, member, if◌then◌else◌, ℤ, pos, ◌+ℤ◌, ◌≤ℤ◌, ◌<ℤ◌, ltb_ℤ, leb_ℤ, leb_ℤ→≤ℤ,
  leb_ℤ→<ℤ, int_laws, parts_eq, eq_of_parts,
}
use kh_optionbaz.Calendar.{
  TradingCalendar, Answer, known, failed, Failure, no_trading_day, learn_if_needed,
  next_trading_day, trading_days_between, span_of,
}
use kh_optionbaz.Calendar.Learning.{span_end}
use kh_optionbaz.Calendar.Learning.Loop.{same_refl, member_cons, kept_in}
use kh_optionbaz.Calendar.Lazy.{
  trading_in, search_in, found_at, count_in, counted_at, search_day_lem, count_days_lem,
}

-- The days from `cursor` up to before `end`, all closed.
abbrev pub IsClosed : (ℤ → Answer Bool) → ℤ → ℤ → Type 0
IsClosed t cursor end = (e : ℤ) → cursor ≤ℤ e → e <ℤ end → t e ≡ known false

-- How a search among `n` days ends: at the first trading day, at the first day whose answer fails, or
-- with all days closed.
abbrev pub Ends : (ℤ → Answer Bool) → ℕ → ℤ → Answer ℤ → Type 0
Ends t n cursor r =
    ((d : ℤ) × (r ≡ known d)
      × (t d ≡ known true)
      × IsClosed t cursor d
      × (cursor ≤ℤ d)
      × (d <ℤ cursor +ℤ pos n))
    ⊎ ((d : ℤ) × (f : Failure) × (r ≡ failed f)
        × (t d ≡ failed f)
        × IsClosed t cursor d
        × (cursor ≤ℤ d)
        × (d <ℤ cursor +ℤ pos n))
    ⊎ ((r ≡ failed no_trading_day) × IsClosed t cursor (cursor +ℤ pos n))

module _ (t : ℤ → Answer Bool) where
  none_before : (cursor : ℤ) → IsClosed t cursor cursor
  none_before cursor e a b = absurd (omega (arith, a, b))

  one_more :
      (cursor end : ℤ)
      → t cursor ≡ known false
      → IsClosed t (cursor +ℤ pos 1) end
      → IsClosed t cursor end
  one_more cursor end h k e a b = elim (Bool-cases (leb_ℤ e cursor)) [
    | inl c ↦ rw (← eq_of_parts cursor e (omega (arith, a, leb_ℤ→≤ℤ e cursor c))) h
    | inr c ↦ k e (omega (int_laws, leb_ℤ→<ℤ e cursor c)) b
  ]

  go_on :
      (n : ℕ) (cursor : ℤ) (r : Answer ℤ)
      → t cursor ≡ known false
      → Ends t n (cursor +ℤ pos 1) r
      → Ends t (suc n) cursor r
  go_on n cursor r h (inl (d, e, k, c, a, b)) =
      inl (d, e, k, one_more cursor d h c, omega (int_laws, a), omega (int_laws, b))
  go_on n cursor r h (inr (inl (d, f, e, k, c, a, b))) =
      inr (inl (d, f, e, k, one_more cursor d h c, omega (int_laws, a), omega (int_laws, b)))
  go_on n cursor r h (inr (inr (e, c))) =
      inr
        (inr (e, λ x a b. one_more cursor (cursor +ℤ pos 1 +ℤ pos n) h c x a (omega (int_laws, b))))

  found-Ends :
      (n : ℕ) (cursor : ℤ) (r : Answer ℤ) (a : Answer Bool)
      → t cursor ≡ a
      → Ends t n (cursor +ℤ pos 1) r
      → Ends t (suc n) cursor (found_at cursor r a)
  found-Ends n cursor r (known true) e h =
      inl (cursor, refl, e, none_before cursor, omega arith, omega int_laws)
  found-Ends n cursor r (known false) e h = go_on n cursor r e h
  found-Ends n cursor r (failed f) e h =
      inr (inl (cursor, f, refl, e, none_before cursor, omega arith, omega int_laws))

  search_in-Ends : (n : ℕ) (cursor : ℤ) → Ends t n cursor (search_in t n cursor)
  search_in-Ends zero cursor = inr (inr (refl, λ x a b. absurd (omega (int_laws, a, b))))
  search_in-Ends (suc n) cursor =
      found-Ends n cursor _ (t cursor) refl (search_in-Ends n (cursor +ℤ pos 1))

-- The next trading day is the first of the sixty days after the given one that is a trading day,
-- all before it being closed; a day whose answer fails before it is found ends the search with this
-- failure, and sixty closed days with its own. The answers are those of the calendar that has learned.
pub next_trading_day-Ends {ℓ} :
    {L : Type ℓ} (run : L → TradingCalendar L → TradingCalendar L)
    → ((l : L) (c : TradingCalendar L) → (run l c).learner ≡ c.learner)
    → (day : ℤ) (c : TradingCalendar L)
    → Ends (trading_in (learn_if_needed run c)) 60 (day +ℤ pos 1) (next_trading_day run day c).0
unfolding next_trading_day
next_trading_day-Ends run k day c =
    rw (search_day_lem run k 60 (day +ℤ pos 1) c)
      (search_in-Ends (trading_in (learn_if_needed run c)) 60 (day +ℤ pos 1))

-- In strictly ascending order, so without duplicates.
abbrev pub IsRising : List ℤ → Type 0
IsRising [] = Unit
IsRising (d ∷ ds) = All (λ e. d <ℤ e) ds × IsRising ds

-- The trading days among `n` days from `cursor` on.
pub record IsEach (t : ℤ → Answer Bool) (cursor end : ℤ) (ds : List ℤ) : Type 0 where
  pub rising : IsRising ds
  pub sound :
      (day : ℤ) → member day ds ≡ true → (t day ≡ known true) × (cursor ≤ℤ day) × (day <ℤ end)
  pub complete : (day : ℤ) → t day ≡ known true → cursor ≤ℤ day → day <ℤ end → member day ds ≡ true

module _ (t : ℤ → Answer Bool) where
  counted_known :
      (r : Answer ℕ) (a : Answer Bool) (k : ℕ)
      → counted_at r a ≡ known k
      → (j : ℕ) × (b : Bool) × (r ≡ known j) × (a ≡ known b) × ((if b then suc j else j) ≡ k)
  counted_known (known j) (known b) k e = (j, b, refl, refl, cc)
  counted_known (failed f) (known b) k e = absurd cc
  counted_known (known j) (failed f) k e = absurd cc
  counted_known (failed g) (failed f) k e = absurd cc

  rising_above :
      (cursor : ℤ) (ds : List ℤ)
      → ((day : ℤ) → member day ds ≡ true → cursor <ℤ day)
      → All (λ e. cursor <ℤ e) ds
  rising_above cursor [] h = tt
  rising_above cursor (d ∷ ds) h = (
    h d (rw (same_refl d) refl),
    rising_above cursor ds (λ day m. h day (kept_in true day d ds m)),
  )

  -- A day is the first, or among the rest.
  first_or : (cursor day : ℤ) → cursor ≤ℤ day → (cursor ≡ day) ⊎ (cursor +ℤ pos 1 ≤ℤ day)
  first_or cursor day h = elim (Bool-cases (leb_ℤ day cursor)) [
    | inl c ↦ inl (eq_of_parts cursor day (omega (arith, h, leb_ℤ→≤ℤ day cursor c)))
    | inr c ↦ inr (omega (int_laws, leb_ℤ→<ℤ day cursor c))
  ]

  add_day :
      (cursor end : ℤ) (ds : List ℤ) (b : Bool)
      → cursor <ℤ end
      → t cursor ≡ known b
      → IsEach t (cursor +ℤ pos 1) end ds
      → IsEach t cursor end (if b then cursor ∷ ds else ds)
  add_day cursor end ds true l e h = record {
    rising = (rising_above cursor ds (λ day m. omega (int_laws, (h.sound day m).1)), h.rising);
    sound = λ day m. elim (member_cons day cursor ds m) [
      | inl c ↦ (rw (← c) e, omega (arith, parts_eq c), omega (arith, parts_eq c, l))
      | inr c ↦ let (a, b, d) = h.sound day c in (a, omega (int_laws, b), d)
    ];
    complete = λ day a b d. elim (first_or cursor day b) [
      | inl c ↦ rw (c, same_refl day) refl
      | inr c ↦ kept_in true day cursor ds (h.complete day a c d)
    ];
  }
  add_day cursor end ds false l e h = record {
    rising = h.rising;
    sound = λ day m. let (a, b, d) = h.sound day m in (a, omega (int_laws, b), d);
    complete = λ day a b d. elim (first_or cursor day b) [
      | inl c ↦ absurd (cc (rw c at e, a))
      | inr c ↦ h.complete day a c d
    ];
  }

  count_in-IsEach :
      (n : ℕ) (cursor : ℤ) (k : ℕ)
      → count_in t n cursor ≡ known k
      → (ds : List ℤ) × (length ds ≡ k) × IsEach t cursor (cursor +ℤ pos n) ds
  count_in-IsEach zero cursor k e = (
    [],
    cc,
    record {
      rising = tt;
      sound = λ day m. absurd cc;
      complete = λ day a b d. absurd (omega (int_laws, b, d));
    },
  )
  count_in-IsEach (suc n) cursor k e =
      let (j, b, r, a, same_count) =
        counted_known (count_in t n (cursor +ℤ pos 1)) (t cursor) k e in
      let (ds, size, each) = count_in-IsEach n (cursor +ℤ pos 1) j r in
      let end : cursor +ℤ pos 1 +ℤ pos n ≡ cursor +ℤ pos (suc n) = omega int_laws in
      (
        (if b then cursor ∷ ds else ds),
        sized b ds j size ∙ same_count,
        add_day cursor (cursor +ℤ pos (suc n)) ds b (omega int_laws) a (rw (← end) each),
      )
    where
      sized :
          (b : Bool) (ds : List ℤ) (j : ℕ)
          → length ds ≡ j
          → length (if b then cursor ∷ ds else ds) ≡ (if b then suc j else j)
      sized true ds j e = ap suc e
      sized false ds j e = e

known_zero : (k : ℕ) (r : Answer ℕ) → r ≡ known 0 → r ≡ known k → 0 ≡ k
known_zero k r e h = cc

-- The number of trading days that is returned is that of a list without duplicates, which holds the
-- trading days from the start to the end, both included, and no others.
pub trading_days_between-IsEach {ℓ} :
    {L : Type ℓ} (run : L → TradingCalendar L → TradingCalendar L)
    → ((l : L) (c : TradingCalendar L) → (run l c).learner ≡ c.learner)
    → (start end : ℤ) (c : TradingCalendar L) (k : ℕ)
    → (trading_days_between run start end c).0 ≡ known k
    → (ds : List ℤ) × (length ds ≡ k)
      × IsEach (trading_in (learn_if_needed run c)) start (end +ℤ pos 1) ds
unfolding trading_days_between
trading_days_between-IsEach run h start end c k e = elim (Bool-cases (ltb_ℤ end start)) [
  | inl b ↦
      let none_left = rw b at e in
      let before : end <ℤ start = ground arith in
      (
        [],
        known_zero k (known 0) refl none_left,
        record {
          rising = tt;
          sound = λ day m. absurd cc;
          complete = λ day a l d. absurd (omega (int_laws, l, d, before));
        },
      )
  | inr b ↦
      let order : start ≤ℤ end = ground arith in
      let counted = rw (b, count_days_lem run h (span_of start end) start c) at e in
      rw (← span_end start end order)
        (count_in-IsEach (trading_in (learn_if_needed run c)) (span_of start end) start k counted)
]
