-- ===== src/Tradability.antt =====
-- option_signal_bot/market/tradability.py: whether a contract can be traded, for an order of a given
-- size. A percentage or a ratio is a quotient of two integers. The labels, units and sentences of a
-- check are not modelled; its key says which measure it is.
mod Observation
pub mod Evidence
pub mod Informed
unfoldable pub use Observation.*
use kh_optionbaz.Prelude.{
  ℕ, suc, Bool, true, false, not, ◌&&◌, ◌||◌, Option, none, some, List, [], ◌∷◌, keep,
  if◌then◌else◌, ltb_ℤ, leb_ℤ, ℤ, pos, Ratio, ratio, ratio_leb, length,
}

pub data Verdict : Type 0 where
  tradable needs_review rejected : Verdict

-- The `key` of a check.
pub data Measure : Type 0 where
  days_to_expiry open_interest trades_today relative_spread exit_depth exit_slippage quote_age :
      Measure
  trading_continuity : Measure

-- `passed` is `none` where the measure is not known.
pub record Check : Type 0 where
  pub key : Measure
  pub value : Option Ratio
  pub threshold : Option Ratio
  pub passed : Option Bool

abbrev pub unknown_of : Option Bool → Bool
unknown_of none = true
unknown_of (some b) = false

abbrev pub failed_of : Option Bool → Bool
failed_of none = false
failed_of (some b) = not b

unfoldable pub is_unknown : Check → Bool
is_unknown c = unknown_of c.passed

-- `c.passed is False`
unfoldable pub is_failed : Check → Bool
is_failed c = failed_of c.passed

pub record Thresholds : Type 0 where
  pub min_open_interest_contracts : ℤ
  pub min_trades_today_count : ℤ
  pub max_relative_spread_pct : Ratio
  pub min_exit_depth_ratio : Ratio
  pub min_sessions_with_trades_pct : Ratio
  pub min_history_sessions : ℤ
  pub min_days_to_expiry : ℤ
  pub max_exit_slippage_pct : Ratio
  pub max_quote_age_seconds : Ratio

-- How the value of a measure is tested.
abbrev pub passes : Bool → Option Ratio → Option Ratio → Option Bool
passes higher none threshold = none
passes higher (some value) none = some true
passes higher (some value) (some threshold) =
    some (if higher then ratio_leb threshold value else ratio_leb value threshold)

-- `_check`
unfoldable pub make_check : Measure → Option Ratio → Ratio → Bool → Check
make_check key value threshold higher_is_better = record {
  key = key;
  value = value;
  threshold = some threshold;
  passed = passes higher_is_better value (some threshold);
}

abbrev pub whole : ℤ → Ratio
whole n = ratio n (pos 1)

abbrev pub counted : Option ℤ → Option Ratio
counted none = none
counted (some n) = some (whole n)

-- Whether the recorded sessions say anything.
abbrev pub sessions_count : HistoryStats → Thresholds → Bool
sessions_count h t = h.known && h.sessions_verified && not (ltb_ℤ h.sessions t.min_history_sessions)

-- The last check: too few sessions, or sessions that are not verified, are not known.
unfoldable pub continuity_check : HistoryStats → Thresholds → Check
unfolding make_check sessions_with_trades_pct
continuity_check h t =
    let unknown : Check = record {
      key = trading_continuity;
      value = none;
      threshold = some t.min_sessions_with_trades_pct;
      passed = none;
    } in
    if sessions_count h t
    then make_check trading_continuity (sessions_with_trades_pct h) t.min_sessions_with_trades_pct
        true
    else unknown

unfoldable pub checks_of : LiquidityObservation → HistoryStats → Thresholds → List Check
checks_of o h t =
    make_check days_to_expiry (counted o.days_to_expiry) (whole t.min_days_to_expiry) true
    ∷ make_check open_interest (counted o.open_interest) (whole t.min_open_interest_contracts) true
    ∷ make_check trades_today (counted o.trades_today) (whole t.min_trades_today_count) true
    ∷ make_check relative_spread (relative_spread_pct o) t.max_relative_spread_pct false
    ∷ make_check exit_depth (exit_depth_ratio o) t.min_exit_depth_ratio true
    ∷ make_check exit_slippage (exit_slippage_pct o) t.max_exit_slippage_pct false
    ∷ make_check quote_age o.quote_age_seconds t.max_quote_age_seconds false
    ∷ continuity_check h t
    ∷ []

-- `any(test(c) for c in checks)`
abbrev pub any_check : (Check → Bool) → List Check → Bool
any_check test [] = false
any_check test (c ∷ cs) = test c || any_check test cs

unfoldable pub verdict_of : List Check → Verdict
unfolding is_failed is_unknown
verdict_of cs =
    if any_check is_failed cs
    then rejected
    else if any_check is_unknown cs
    then needs_review
    else tradable

pub record TradabilityReport : Type 0 where
  pub symbol : ℕ
  pub verdict : Verdict
  pub checks : List Check
  pub observation : LiquidityObservation
  pub history : HistoryStats

unfoldable pub failed : TradabilityReport → List Check
failed r = keep is_failed r.checks

unfoldable pub unknown : TradabilityReport → List Check
unknown r = keep is_unknown r.checks

unfoldable pub evaluate : LiquidityObservation → HistoryStats → Thresholds → TradabilityReport
evaluate o h t =
    let cs = checks_of o h t in
    record { symbol = o.symbol; verdict = verdict_of cs; checks = cs; observation = o; history = h }
