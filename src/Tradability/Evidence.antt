-- ===== src/Tradability/Evidence.antt =====
-- What a verdict of option_signal_bot/market/tradability.py rests on.
use mathlib.Core.Option.{some-injective}
use kh_optionbaz.Prelude.{
  ◌≡◌, refl, arith, inl, inr, Bool, true, false, Bool-cases, Option, none, some, Option-cases, List,
  [], ◌∷◌, All, if◌then◌else◌, leb_ℤ, ℤ, pos, ◌≤ℤ◌, ◌<ℤ◌, ◌*ℤ◌, leb_ℤ→<ℤ, leb_ℤ→≤ℤ, one-*ℤ, *ℤ_comm,
  parts_eq, ◌∙◌, Ratio, ratio_leb,
}
use kh_optionbaz.Tradability.{
  Check, Measure, days_to_expiry, open_interest, trades_today, relative_spread, exit_depth,
  exit_slippage, quote_age, trading_continuity, Thresholds, tradable, LiquidityObservation,
  HistoryStats, is_unknown, is_failed, make_check, whole, counted, sessions_count, continuity_check,
  checks_of, any_check, verdict_of, evaluate, relative_spread_pct, exit_depth_ratio, per_order,
  exit_slippage_pct, sessions_with_trades_pct,
}

abbrev pub IsPassed : Check → Type 0
IsPassed c = c.passed ≡ some true

none-bad :
    (cs : List Check)
    → any_check is_failed cs ≡ false
    → any_check is_unknown cs ≡ false
    → All IsPassed cs
unfolding is_failed is_unknown
none-bad [] f u = tt
none-bad (c ∷ cs) f u = elim (Option-cases c.passed) [
  | inl n ↦ absurd (cc (rw n at u))
  | inr (true, e) ↦ (e, none-bad cs (rw e at f) (rw e at u))
  | inr (false, e) ↦ absurd (cc (rw e at f))
]

verdict_of-tradable : (cs : List Check) → verdict_of cs ≡ tradable → All IsPassed cs
unfolding verdict_of
verdict_of-tradable cs e = elim (Bool-cases (any_check is_failed cs)) [
  | inl f ↦ absurd (cc (rw f at e))
  | inr f ↦ elim (Bool-cases (any_check is_unknown cs)) [
    | inl u ↦ absurd (cc (rw (f, u) at e))
    | inr u ↦ none-bad cs f u
  ]
]

-- A measure is known, and stands on the right side of its threshold.
abbrev pub IsMet : Bool → Option Ratio → Ratio → Type 0
IsMet higher value threshold =
    (r : Ratio) × (value ≡ some r)
    × ((if higher then ratio_leb threshold r else ratio_leb r threshold) ≡ true)

passes-IsMet :
    (key : Measure) (value : Option Ratio) (threshold : Ratio) (higher : Bool)
    → IsPassed (make_check key value threshold higher)
    → IsMet higher value threshold
unfolding make_check
passes-IsMet key none threshold higher e = absurd cc
passes-IsMet key (some r) threshold higher e = (r, refl, some-injective _ _ e)

counted-IsMet :
    (n : Option ℤ) (least : ℤ)
    → IsMet true (counted n) (whole least)
    → (m : ℤ) × (n ≡ some m) × (least ≤ℤ m)
counted-IsMet none least (r, e, h) = absurd cc
counted-IsMet (some m) least (r, e, h) =
    let h' = rw (← some-injective _ _ e) at h in
    let below = leb_ℤ→≤ℤ (least *ℤ pos 1) (m *ℤ pos 1) h' in
    let one = λ (k : ℤ). parts_eq (*ℤ_comm k (pos 1) ∙ one-*ℤ k) in
    (m, refl, omega (arith, below, one least, one m))

depth-IsMet :
    (n : Option ℤ) (quantity : ℤ) (least : Ratio)
    → IsMet true (per_order n quantity) least
    → (m : ℤ) × (n ≡ some m) × (pos 0 <ℤ quantity) × (least.num *ℤ quantity ≤ℤ m *ℤ least.den)
depth-IsMet none quantity least (r, e, h) = absurd cc
depth-IsMet (some m) quantity least (r, e, h) = elim (Bool-cases (leb_ℤ quantity (pos 0))) [
  | inl b ↦ absurd (cc (rw b at e))
  | inr b ↦
      let h' = rw (← some-injective _ _ (rw b at e)) at h in
      (m, refl, leb_ℤ→<ℤ quantity (pos 0) b, leb_ℤ→≤ℤ (least.num *ℤ quantity) (m *ℤ least.den) h')
]

-- The evidence for a contract that can be traded.
pub record IsEvident (o : LiquidityObservation) (h : HistoryStats) (t : Thresholds) : Type 0 where
  pub alive : (d : ℤ) × (o.days_to_expiry ≡ some d) × (t.min_days_to_expiry ≤ℤ d)
  pub interest : (n : ℤ) × (o.open_interest ≡ some n) × (t.min_open_interest_contracts ≤ℤ n)
  pub traded : (n : ℤ) × (o.trades_today ≡ some n) × (t.min_trades_today_count ≤ℤ n)
  pub spread : IsMet false (relative_spread_pct o) t.max_relative_spread_pct
  pub depth :
      (n : ℤ) × (o.exit_depth_contracts ≡ some n)
      × (pos 0 <ℤ o.quantity)
      × (t.min_exit_depth_ratio.num *ℤ o.quantity ≤ℤ n *ℤ t.min_exit_depth_ratio.den)
  pub slippage : IsMet false (exit_slippage_pct o) t.max_exit_slippage_pct
  pub recent : IsMet false o.quote_age_seconds t.max_quote_age_seconds
  pub recorded :
      (h.known ≡ true) × (h.sessions_verified ≡ true) × (t.min_history_sessions ≤ℤ h.sessions)
  pub continuous : IsMet true (sessions_with_trades_pct h) t.min_sessions_with_trades_pct

continuity-IsMet :
    (h : HistoryStats) (t : Thresholds)
    → IsPassed (continuity_check h t)
    → (h.known ≡ true)
      × (h.sessions_verified ≡ true)
      × (t.min_history_sessions ≤ℤ h.sessions)
      × IsMet true (sessions_with_trades_pct h) t.min_sessions_with_trades_pct
unfolding continuity_check
continuity-IsMet h t e = elim (Bool-cases (sessions_count h t)) [
  | inr b ↦ absurd (cc (rw b at e))
  | inl b ↦
      let met = passes-IsMet trading_continuity _ t.min_sessions_with_trades_pct true (rw b at e) in
      (ground arith, ground arith, ground arith, met)
]

-- A contract is reported as tradable only on evidence: the expiry, the open interest, the trades of
-- today, the spread, the slippage of the exit and the age of the quote are known and within their
-- thresholds, the depth on the side of the exit holds the order as often as is asked for, and enough
-- verified sessions are recorded, of which enough had trades. What is not known approves nothing.
pub evaluate-IsEvident :
    (o : LiquidityObservation) (h : HistoryStats) (t : Thresholds)
    → (evaluate o h t).verdict ≡ tradable
    → IsEvident o h t
unfolding evaluate checks_of exit_depth_ratio
evaluate-IsEvident o h t e =
    let (a, (b, (c, (d, (f, (g, (i, (j, _)))))))) = verdict_of-tradable (checks_of o h t) e in
    let (known, verified, enough, pct) = continuity-IsMet h t j in
    record {
      alive = counted-IsMet o.days_to_expiry _ (passes-IsMet days_to_expiry _ _ true a);
      interest = counted-IsMet o.open_interest _ (passes-IsMet open_interest _ _ true b);
      traded = counted-IsMet o.trades_today _ (passes-IsMet trades_today _ _ true c);
      spread = passes-IsMet relative_spread _ _ false d;
      depth = depth-IsMet o.exit_depth_contracts o.quantity _ (passes-IsMet exit_depth _ _ true f);
      slippage = passes-IsMet exit_slippage _ _ false g;
      recent = passes-IsMet quote_age _ _ false i;
      recorded = (known, verified, enough);
      continuous = pct;
    }
