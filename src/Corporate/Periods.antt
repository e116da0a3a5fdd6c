-- ===== src/Corporate/Periods.antt =====
-- Adjusting a contract in one go or in two, in option_signal_bot/market/corporate_actions.py.
use kh_optionbaz.Prelude.{
  ◌≡◌, refl, ap, arith, ℕ, ◌≤◌, ◌<◌, inl, inr, Bool, false, ◌&&◌, Bool-cases, List, [], ◌∷◌, ◌++◌,
  keep, All, ltb, leb, ℤ, IsSorted, sort_by-IsSorted,
}
use kh_optionbaz.Corporate.{
  CorporateAction, Terms, by_date, log_of, since, apply_action, apply_all, adjust,
}

-- The test of `since`.
abbrev in_period : ℕ → ℕ → CorporateAction → Bool
in_period r e a = ltb r a.effective_date && leb a.effective_date e

module _ (r m e : ℕ) (h : r ≤ m) (k : m ≤ e) where
  -- Behind an action after `m` there are only such actions.
  all_later :
      (xs : List CorporateAction)
      → All (λ a. m < a.effective_date) xs
      → (keep (in_period r m) xs ≡ []) × (keep (in_period r e) xs ≡ keep (in_period m e) xs)
  all_later [] q = (refl, refl)
  all_later (a ∷ xs) q =
      let (x, y) = all_later xs q.1 in
      let late = q.0 in
      let b : in_period r m a ≡ false = ground arith in
      let c : in_period r e a ≡ in_period m e a = ground arith in (rw (b, x) refl, rw (c, y) refl)

  later_than :
      (a : CorporateAction) (xs : List CorporateAction)
      → m < a.effective_date
      → All (λ b. by_date b a ≡ false) xs
      → All (λ b. m < b.effective_date) xs
  later_than a [] l q = tt
  later_than a (b ∷ xs) l q = (let x = q.0 in ground arith, later_than a xs l q.1)

  split_period :
      (xs : List CorporateAction)
      → IsSorted by_date xs
      → keep (in_period r e) xs ≡ keep (in_period r m) xs ++ keep (in_period m e) xs
  split_period [] s = refl
  split_period (a ∷ xs) s = elim (Bool-cases (leb a.effective_date m)) [
    | inl b ↦
        let c : in_period m e a ≡ false = ground arith in
        let d : in_period r e a ≡ in_period r m a = ground arith in
        elim (Bool-cases (in_period r m a)) [
          | inl t ↦ rw (c, d, t) (ap (λ l. a ∷ l) (split_period xs s.1))
          | inr t ↦ rw (c, d, t) (split_period xs s.1)
        ]
    | inr b ↦
        let late : m < a.effective_date = ground arith in
        let (x, y) = all_later (a ∷ xs) (late, later_than a xs late s.0) in rw (x, y) refl
  ]

module _ (divide round_div : ℤ → ℤ → ℤ) where
  apply_all-append :
      (xs bs : List CorporateAction) (c : Terms)
      → apply_all divide round_div (xs ++ bs) c
        ≡ apply_all divide round_div bs (apply_all divide round_div xs c)
  apply_all-append [] bs c = refl
  apply_all-append (a ∷ xs) bs c = apply_all-append xs bs (apply_action divide round_div a c)

  -- Adjusting a contract from its issue to today is adjusting it to any day between, and the result
  -- from there on: no action is missed or applied twice, and they are applied in the order of their
  -- dates.
  pub adjust_in_two :
      (actions : List CorporateAction) (c : Terms) (issued mid today : ℕ)
      → issued ≤ mid
      → mid ≤ today
      → adjust divide round_div (log_of actions) c issued today
        ≡ adjust divide round_div
            (log_of actions)
            (adjust divide round_div (log_of actions) c issued mid)
            mid
            today
  unfolding adjust since log_of
  adjust_in_two actions c issued mid today h k =
      rw
        (split_period issued mid today h k (log_of actions)
          (sort_by-IsSorted by_date (λ x y l. ground arith) (λ x y z l n. ground arith) actions))
        (apply_all-append (keep (in_period issued mid) (log_of actions))
          (keep (in_period mid today) (log_of actions)) c)
