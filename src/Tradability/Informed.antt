-- ===== src/Tradability/Informed.antt =====
-- More data on a contract (option_signal_bot/market/tradability.py): what is missing is filled in, and
-- what is known stays.
use kh_optionbaz.Prelude.{
  ◌≡◌, ◌⊎◌, refl, ap, ◌∙◌, inl, inr, Bool, true, false, ◌||◌, Bool-cases, Option, none, some, List,
  [], ◌∷◌, ℤ, Ratio,
}
use kh_optionbaz.Tradability.{
  Check, Measure, Thresholds, needs_review, LiquidityObservation, HistoryStats, is_unknown,
  is_failed, failed_of, ExitSide, make_check, passes, counted, per_order, spread_pct, nonzero,
  slippage_pct, exit_side, checks_of, any_check, verdict_of, evaluate, relative_spread_pct,
  exit_depth_ratio, exit_slippage_pct,
}

-- A value that is missing, or the same.
abbrev pub Informs {ℓ} : {A : Type ℓ} → Option A → Option A → Type ℓ
Informs a b = (a ≡ none) ⊎ (a ≡ b)

-- The order of information on observations of one position.
pub record IsInformed (o p : LiquidityObservation) : Type 0 where
  pub same_side : o.position_buy ≡ p.position_buy
  pub same_quantity : o.quantity ≡ p.quantity
  pub bid : Informs o.bid p.bid
  pub ask : Informs o.ask p.ask
  pub exit_depth : Informs o.exit_depth_contracts p.exit_depth_contracts
  pub exit_fill : Informs o.exit_fill_price p.exit_fill_price
  pub best_exit : Informs o.best_exit_price p.best_exit_price
  pub interest : Informs o.open_interest p.open_interest
  pub trades : Informs o.trades_today p.trades_today
  pub days : Informs o.days_to_expiry p.days_to_expiry
  pub age : Informs o.quote_age_seconds p.quote_age_seconds

-- A measure of one value, and one of two, that is missing where a value is.
pub Informs-of {ℓ κ} :
    {A : Type ℓ} {B : Type κ} (f : Option A → Option B) (a b : Option A)
    → f none ≡ none
    → Informs a b
    → Informs (f a) (f b)
Informs-of f a b n (inl e) = inl (ap f e ∙ n)
Informs-of f a b n (inr e) = inr (ap f e)

Informs-of_two {ℓ κ} :
    {A : Type ℓ} {B : Type κ} (f : Option A → Option A → Option B) (a b c d : Option A)
    → ((x : Option A) → f none x ≡ none)
    → ((x : Option A) → f x none ≡ none)
    → Informs a b
    → Informs c d
    → Informs (f a c) (f b d)
Informs-of_two f a b c d n m (inl e) k = inl (ap (λ x. f x c) e ∙ n c)
Informs-of_two f a b c d n m (inr e) (inl k) = inl (ap (λ x. f a x) k ∙ m a)
Informs-of_two f a b c d n m (inr e) (inr k) = inr (rw (e, k) refl)

-- The tests of the one list and of the other, in the same order.
abbrev Informed : List Check → List Check → Type 0
Informed [] [] = Unit
Informed (c ∷ cs) (d ∷ ds) = Informs c.passed d.passed × Informed cs ds
Informed _ _ = ⊥

or_right : (a : Bool) {b : Bool} → b ≡ true → (a || b) ≡ true
or_right true e = refl
or_right false e = e

or_false : (a : Bool) {b : Bool} → (a || b) ≡ false → (a ≡ false) × (b ≡ false)
or_false true e = absurd (cc e)
or_false false e = (refl, e)

failed-stays :
    (cs ds : List Check)
    → Informed cs ds
    → any_check is_failed cs ≡ true
    → any_check is_failed ds ≡ true
unfolding is_failed
failed-stays [] [] i f = f
failed-stays [] (d ∷ ds) i f = absurd i
failed-stays (c ∷ cs) [] i f = absurd i
failed-stays (c ∷ cs) (d ∷ ds) (inl n, i) f =
    or_right (failed_of d.passed) (failed-stays cs ds i (rw n at f))
failed-stays (c ∷ cs) (d ∷ ds) (inr e, i) f = elim (Bool-cases (failed_of d.passed)) [
  | inl b ↦ rw b refl
  | inr b ↦ rw b (failed-stays cs ds i (rw (e, b) at f))
]

-- Where every test of the one list has passed, so has every test of the other.
passed-stays :
    (cs ds : List Check)
    → Informed cs ds
    → any_check is_failed cs ≡ false
    → any_check is_unknown cs ≡ false
    → (any_check is_failed ds ≡ false) × (any_check is_unknown ds ≡ false)
unfolding is_failed is_unknown
passed-stays [] [] i f u = (refl, refl)
passed-stays [] (d ∷ ds) i f u = absurd i
passed-stays (c ∷ cs) [] i f u = absurd i
passed-stays (c ∷ cs) (d ∷ ds) (inl n, i) f u = absurd (cc (rw n at u))
passed-stays (c ∷ cs) (d ∷ ds) (inr e, i) f u =
    let (a, x) = or_false (failed_of c.passed) f in
    let (b, y) = or_false (is_unknown c) u in
    let (v, w) = passed-stays cs ds i x y in (rw (← e, a) v, rw (← e, b) w)

verdict_of_decided :
    (cs ds : List Check)
    → Informed cs ds
    → ((verdict_of cs ≡ needs_review) × (any_check is_failed cs ≡ false))
      ⊎ (verdict_of ds ≡ verdict_of cs)
unfolding verdict_of
verdict_of_decided cs ds i = elim (Bool-cases (any_check is_failed cs)) [
  | inl f ↦ inr (rw (f, failed-stays cs ds i f) refl)
  | inr f ↦ elim (Bool-cases (any_check is_unknown cs)) [
    | inl u ↦ inl (rw (f, u) refl, f)
    | inr u ↦ let (v, w) = passed-stays cs ds i f u in inr (rw (f, u, v, w) refl)
  ]
]

passed-Informs :
    (key : Measure) (a b : Option Ratio) (threshold : Ratio) (higher : Bool)
    → Informs a b
    → Informs (make_check key a threshold higher).passed (make_check key b threshold higher).passed
unfolding make_check
passed-Informs key a b threshold higher i =
    Informs-of (λ (v : Option Ratio). passes higher v (some threshold)) a b refl i

nonzero-Informs : (a b : Option ℤ) → Informs a b → Informs (nonzero a) (nonzero b)
nonzero-Informs a b i = Informs-of nonzero a b refl i

spread_none : (x : Option ℤ) → spread_pct x none ≡ none
spread_none none = refl
spread_none (some x) = refl

slippage_none : (side : ExitSide) (x : Option ℤ) → slippage_pct side x none ≡ none
slippage_none side none = refl
slippage_none side (some x) = refl

module _ (o p : LiquidityObservation) (i : IsInformed o p) where
  spread-Informs : Informs (relative_spread_pct o) (relative_spread_pct p)
  unfolding relative_spread_pct
  spread-Informs =
      Informs-of_two spread_pct _ _ _ _ (λ x. refl) spread_none (nonzero-Informs _ _ i.bid)
        (nonzero-Informs _ _ i.ask)

  depth-Informs : Informs (exit_depth_ratio o) (exit_depth_ratio p)
  unfolding exit_depth_ratio
  depth-Informs =
      rw i.same_quantity
        (Informs-of (λ (n : Option ℤ). per_order n p.quantity) _ _ refl i.exit_depth)

  slippage-Informs : Informs (exit_slippage_pct o) (exit_slippage_pct p)
  unfolding exit_slippage_pct exit_side
  slippage-Informs = rw i.same_side (
      Informs-of_two (slippage_pct (exit_side p)) _ _ _ _ (λ x. refl) (slippage_none (exit_side p))
        (nonzero-Informs _ _ i.exit_fill) (nonzero-Informs _ _ i.best_exit))

  checks_of-Informed :
      (h : HistoryStats) (t : Thresholds) → Informed (checks_of o h t) (checks_of p h t)
  unfolding checks_of
  checks_of-Informed h t = (
    passed-Informs _ _ _ _ _ (Informs-of counted _ _ refl i.days),
    (
      passed-Informs _ _ _ _ _ (Informs-of counted _ _ refl i.interest),
      (
        passed-Informs _ _ _ _ _ (Informs-of counted _ _ refl i.trades),
        (
          passed-Informs _ _ _ _ _ spread-Informs,
          (
            passed-Informs _ _ _ _ _ depth-Informs,
            (
              passed-Informs _ _ _ _ _ slippage-Informs,
              (passed-Informs _ _ _ _ _ i.age, (inr refl, tt)),
            ),
          ),
        ),
      ),
    ),
  )

  -- Only a verdict that asks for review, with no check that has failed, can change: whatever else is learnt of the position, at the
  -- same size and with the same history and thresholds, what is rejected stays rejected, and what is
  -- tradable stays tradable.
  pub evaluate_decided :
      (h : HistoryStats) (t : Thresholds)
      → (((evaluate o h t).verdict ≡ needs_review)
          × (any_check is_failed (evaluate o h t).checks ≡ false))
        ⊎ ((evaluate p h t).verdict ≡ (evaluate o h t).verdict)
  unfolding evaluate
  evaluate_decided h t =
      verdict_of_decided (checks_of o h t) (checks_of p h t) (checks_of-Informed h t)
