-- ===== src/Calendar/Learning.antt =====
-- What `learn_from_history` of option_signal_bot/market/trading_calendar.py takes for a holiday.
pub mod Loop
use kh_optionbaz.Prelude.{
  ◌≡◌, ◌⊎◌, ◌↔◌, inl, inr, refl, sym, ◌∙◌, arith, ℕ, zero, suc, ◌+◌, Bool, true, false, not, ◌&&◌,
  Bool-cases, List, [], ◌∷◌, All, length, pos_part, negsuc, if◌then◌else◌, ℤ, pos, ◌+ℤ◌, ◌-ℤ◌, ◌≤ℤ◌,
  ◌<ℤ◌, leb_ℤ, ltb_ℤ, int_laws, parts_eq, leb_ℤ→≤ℤ, leb_ℤ→<ℤ, eq_of_parts, same, member, distinct,
  sort_by, same_sound, member_sound, distinct_All, distinct_All_inv, All-sort_by, All-sort_by_inv,
  IsSorted, sort_by-IsSorted,
}
use kh_optionbaz.Calendar.{
  TradingCalendar, is_weekend, is_gap, learn_days, learn_from_history, learn_sorted, last_day,
  span_of,
}
use kh_optionbaz.Calendar.Learning.Loop.{
  same_refl, member_cons, kept_in, IsAdded, learn_days_sound, learn_days_complete,
  learn_days-length,
}

-- A day among trading days on which there was no trade: not in the weekend, not itself one of them,
-- and with one of them before and one after it.
pub record IsGap (days : List ℤ) (day : ℤ) : Type 0 where
  pub workday : is_weekend day ≡ false
  pub untraded : member day days ≡ false
  pub before : (d : ℤ) × (member d days ≡ true) × (d ≤ℤ day)
  pub after : (d : ℤ) × (member d days ≡ true) × (day ≤ℤ d)

-- The sorted set of a list has the same elements.
All_member : (xs : List ℤ) → All (λ x. member x xs ≡ true) xs
All_member xs = keep_in xs (λ x h. h)
  where
    keep_in :
        (ys : List ℤ)
        → ((x : ℤ) → member x ys ≡ true → member x xs ≡ true)
        → All (λ x. member x xs ≡ true) ys
    keep_in [] f = tt
    keep_in (y ∷ ys) f =
        (f y (rw (same_refl y) refl), keep_in ys (λ x h. f x (kept_in true x y ys h)))

abbrev sorted_set : List ℤ → List ℤ
sorted_set days = sort_by ltb_ℤ (distinct days)

member_sorted : (k : ℤ) (days : List ℤ) → member k (sorted_set days) ≡ member k days
member_sorted k days = elim (Bool-cases (member k days)) [
  | inl b ↦ rw b (
      member_sound (λ x. member x (sorted_set days) ≡ true) k days b
        (distinct_All_inv _ days (All-sort_by_inv ltb_ℤ _ _ (All_member (sorted_set days)))))
  | inr b ↦ elim (Bool-cases (member k (sorted_set days))) [
    | inr c ↦ rw (b, c) refl
    | inl c ↦ absurd (
        cc (
          member_sound (λ x. member x days ≡ true) k (sorted_set days) c
            (All-sort_by ltb_ℤ _ _ (distinct_All _ days (All_member days)))))
  ]
]

sorted_set-IsSorted : (days : List ℤ) → IsSorted ltb_ℤ (sorted_set days)
sorted_set-IsSorted days =
    sort_by-IsSorted ltb_ℤ (λ x y k. ground arith) (λ x y z k l. ground arith) _

first_least :
    (first : ℤ) (days : List ℤ)
    → IsSorted ltb_ℤ (first ∷ days)
    → All (λ d. first ≤ℤ d) (first ∷ days)
first_least first days s = (omega arith, above days s.0)
  where
    above : (ds : List ℤ) → All (λ y. ltb_ℤ y first ≡ false) ds → All (λ d. first ≤ℤ d) ds
    above [] h = tt
    above (d ∷ ds) h = (ground arith, above ds h.1)

last_greatest :
    (first : ℤ) (days : List ℤ)
    → IsSorted ltb_ℤ (first ∷ days)
    → All (λ d. d ≤ℤ last_day first days) (first ∷ days)
last_greatest first [] s = (omega arith, tt)
last_greatest first (d ∷ days) s =
    let rest = last_greatest d days s.1 in
    let low = s.0.0 in let high = rest.0 in (ground arith, rest)

last_member : (first : ℤ) (days : List ℤ) → member (last_day first days) (first ∷ days) ≡ true
last_member first [] = rw (same_refl first) refl
last_member first (d ∷ days) = kept_in true _ first (d ∷ days) (last_member d days)

pos_of : (a : ℤ) → pos 0 ≤ℤ a → pos (pos_part a) ≡ a
pos_of (pos n) h = refl
pos_of (negsuc n) h = absurd (omega arith)

pub span_end : (first last : ℤ) → first ≤ℤ last → first +ℤ pos (span_of first last) ≡ last +ℤ pos 1
span_end first last h =
    omega (int_laws, parts_eq (pos_of (last -ℤ first +ℤ pos 1) (omega (int_laws, h))))

IsAdded-IsGap :
    (first : ℤ) (days : List ℤ) (day : ℤ)
    → IsSorted ltb_ℤ (first ∷ days)
    → IsAdded (first ∷ days) (span_of first (last_day first days)) first day
      ↔ IsGap (first ∷ days) day
IsAdded-IsGap first days day s =
    let low = first_least first days s in
    let high = last_greatest first days s in
    let end = parts_eq (span_end first (last_day first days) high.0) in
    (
      (λ (w, u, a, b). record {
        workday = w;
        untraded = u;
        before = (first, rw (same_refl first) refl, a);
        after = (last_day first days, last_member first days, omega (int_laws, b, end));
      }),
      (λ g.
          let (d, m, l) = g.before in
          let (e, n, k) = g.after in
          let start = member_sound (λ t. first ≤ℤ t) d (first ∷ days) m low in
          let stop = member_sound (λ t. t ≤ℤ last_day first days) e (first ∷ days) n high in
          (g.workday, g.untraded, omega (arith, start, l), omega (int_laws, stop, k, end))),
    )

sorted_set-IsGap : (days : List ℤ) (day : ℤ) → IsGap (sorted_set days) day ↔ IsGap days day
sorted_set-IsGap days day = (
  (λ g. record {
    workday = g.workday;
    untraded = sym (member_sorted day days) ∙ g.untraded;
    before = (g.before.0, sym (member_sorted g.before.0 days) ∙ g.before.1, g.before.2);
    after = (g.after.0, sym (member_sorted g.after.0 days) ∙ g.after.1, g.after.2);
  }),
  (λ g. record {
    workday = g.workday;
    untraded = member_sorted day days ∙ g.untraded;
    before = (g.before.0, member_sorted g.before.0 days ∙ g.before.1, g.before.2);
    after = (g.after.0, member_sorted g.after.0 days ∙ g.after.1, g.after.2);
  }),
)

module _ {ℓ} {L : Type ℓ} (c : TradingCalendar L) where
  -- Fewer than two trading days have no gap.
  one_day : (a day : ℤ) → IsGap (a ∷ []) day → ⊥
  one_day a day g =
      let (d, m, l) = g.before in
      let (e, n, k) = g.after in
      let low = member_sound (λ t. a ≤ℤ t) d (a ∷ []) m (omega arith, tt) in
      let high = member_sound (λ t. t ≤ℤ a) e (a ∷ []) n (omega arith, tt) in
      let same_as : a ≡ day = eq_of_parts a day (omega (arith, low, high, l, k)) in
      let untraded = rw (same_as, same_refl day) at g.untraded in cc untraded

  learn_sorted-holidays :
      (days : List ℤ) (day : ℤ)
      → IsSorted ltb_ℤ days
      → (member day (learn_sorted days c).1.holidays ≡ true)
        ↔ ((member day c.holidays ≡ true) ⊎ IsGap days day)
  learn_sorted-holidays [] day s = (inl, λ h. elim h [ inl m ↦ m | inr g ↦ absurd (cc g.before.1) ])
  learn_sorted-holidays (a ∷ []) day s =
      (inl, λ h. elim h [ inl m ↦ m | inr g ↦ absurd (one_day a day g) ])
  learn_sorted-holidays (a ∷ b ∷ days) day s = (
    (λ h. elim (learn_days_sound _ _ _ _ day h) [
      | inl m ↦ inl m
      | inr g ↦ inr ((IsAdded-IsGap a (b ∷ days) day s).0 g)
    ]),
    (λ h.
        learn_days_complete _ _ _ _ day
          (elim h [ inl m ↦ inl m | inr g ↦ inr ((IsAdded-IsGap a (b ∷ days) day s).1 g) ])),
  )

  counted :
      (ds : List ℤ)
      → length (learn_sorted ds c).1.holidays ≡ length c.holidays + (learn_sorted ds c).0
  counted [] = omega arith
  counted (a ∷ []) = omega arith
  counted (a ∷ b ∷ ds) = learn_days-length (a ∷ b ∷ ds) _ a c.holidays

  -- After learning from a history, the holidays are those that were known and the gaps of the history:
  -- the days that are not in the weekend, on which there was no trade, and that have a trading day
  -- before and one after them. The number that is returned is how many were added.
  pub learn_from_history-holidays :
      (days : List ℤ)
      → ((day : ℤ)
          → (member day (learn_from_history days c).1.holidays ≡ true)
            ↔ ((member day c.holidays ≡ true) ⊎ IsGap days day))
        × (length (learn_from_history days c).1.holidays
            ≡ length c.holidays + (learn_from_history days c).0)
  unfolding learn_from_history
  learn_from_history-holidays days = (
    (λ day.
        let (there, back) =
          learn_sorted-holidays (sorted_set days) day (sorted_set-IsSorted days) in
        let (out, into) = sorted_set-IsGap days day in
        (
          (λ h. elim (there h) [ inl m ↦ inl m | inr g ↦ inr (out g) ]),
          (λ h. back (elim h [ inl m ↦ inl m | inr g ↦ inr (into g) ])),
        )),
    counted (sorted_set days),
  )

  -- Learning does not touch what is put off.
  pub learn_from_history-learner :
      (days : List ℤ) → (learn_from_history days c).1.learner ≡ c.learner
  unfolding learn_from_history
  learn_from_history-learner days = same_learner (sorted_set days)
    where
      same_learner : (ds : List ℤ) → (learn_sorted ds c).1.learner ≡ c.learner
      same_learner [] = refl
      same_learner (a ∷ []) = refl
      same_learner (a ∷ b ∷ ds) = refl
