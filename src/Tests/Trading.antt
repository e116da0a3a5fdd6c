-- ===== src/Tests/Trading.antt =====
-- The theorems on tradability and on payoffs at concrete inputs.
use kh_optionbaz.Prelude.{
  ◌⊎◌, ◌≡◌, refl, arith, inl, inr, Bool, true, false, Option, none, some, [], ◌∷◌, ℤ, pos, negsuc,
  ◌≤ℤ◌, ◌+ℤ◌, ◌-ℤ◌, ◌*ℤ◌, max_ℤ, min_ℤ, sort_by, All, ratio, floor_div, distinct,
}
use kh_optionbaz.Tests.{quotient}
use kh_optionbaz.Tradability.{
  LiquidityObservation, HistoryStats, Thresholds, needs_review, any_check, is_failed, evaluate,
  verdict_of, checks_of, make_check, relative_spread_pct, exit_depth_ratio, exit_slippage_pct,
  continuity_check,
}
use kh_optionbaz.Tradability.Evidence.{IsEvident, evaluate-IsEvident}
use kh_optionbaz.Tradability.Informed.{IsInformed, evaluate_decided}
use kh_optionbaz.Payoff.{
  StrategyPayoff, PositionLeg, call, payoff, max_profit, max_loss, has_unlimited_upside,
  has_unlimited_downside, is_option, extreme,
}
use kh_optionbaz.Payoff.Nodes.{TakenAt}
use kh_optionbaz.Payoff.Bounds.{IsOption}
use kh_optionbaz.Payoff.Extremes.{max_profit_greatest, max_loss_least}

-- Ten contracts, bid at 98 and asked at 102, with `depth` contracts on the side of the exit.
abbrev pub seen_at : Option ℤ → LiquidityObservation
seen_at depth = record {
  symbol = 7;
  position_buy = true;
  quantity = pos 10;
  observed_at = 1;
  bid = some (pos 98);
  ask = some (pos 102);
  exit_depth_contracts = depth;
  exit_fill_price = some (pos 97);
  best_exit_price = some (pos 98);
  entry_fill_price = some (pos 102);
  entry_depth_contracts = some (pos 30);
  exit_depth_within_band_contracts = none;
  open_interest = some (pos 400);
  trades_today = some (pos 25);
  days_to_expiry = some (pos 20);
  quote_age_seconds = some (ratio (pos 30) (pos 1));
  source_time = none;
}

abbrev pub sessions : HistoryStats
sessions = record {
  sessions = pos 20;
  sessions_with_trades = pos 19;
  sessions_with_both_quotes = pos 18;
  first_session = some 1;
  last_session = some 28;
  known = true;
  sessions_verified = true;
  skipped_non_trading_days = pos 0;
}

abbrev pub limits : ℤ → Thresholds
limits least_interest = record {
  min_open_interest_contracts = least_interest;
  min_trades_today_count = pos 10;
  max_relative_spread_pct = ratio (pos 5) (pos 1);
  min_exit_depth_ratio = ratio (pos 2) (pos 1);
  min_sessions_with_trades_pct = ratio (pos 80) (pos 1);
  min_history_sessions = pos 10;
  min_days_to_expiry = pos 5;
  max_exit_slippage_pct = ratio (pos 3) (pos 1);
  max_quote_age_seconds = ratio (pos 60) (pos 1);
}

evaluate-IsEvident_example : IsEvident (seen_at (some (pos 20))) sessions (limits (pos 100))
unfolding evaluate verdict_of checks_of make_check relative_spread_pct exit_depth_ratio
    exit_slippage_pct continuity_check max_ℤ ◌+ℤ◌ ◌-ℤ◌ ◌*ℤ◌
evaluate-IsEvident_example =
    evaluate-IsEvident (seen_at (some (pos 20))) sessions (limits (pos 100)) refl

abbrev deeper : IsInformed (seen_at none) (seen_at (some (pos 20)))
deeper = record {
  same_side = refl;
  same_quantity = refl;
  bid = inr refl;
  ask = inr refl;
  exit_depth = inl refl;
  exit_fill = inr refl;
  best_exit = inr refl;
  interest = inr refl;
  trades = inr refl;
  days = inr refl;
  age = inr refl;
}

-- The depth was not known, the open interest is too small.
evaluate_decided_example :
    (((evaluate (seen_at none) sessions (limits (pos 500))).verdict ≡ needs_review)
      × (any_check is_failed (evaluate (seen_at none) sessions (limits (pos 500))).checks ≡ false))
    ⊎ ((evaluate (seen_at (some (pos 20))) sessions (limits (pos 500))).verdict
        ≡ (evaluate (seen_at none) sessions (limits (pos 500))).verdict)
evaluate_decided_example =
    evaluate_decided (seen_at none) (seen_at (some (pos 20))) deeper sessions (limits (pos 500))

-- One call at 100 bought for 10, one call at 120 sold for 4.
abbrev leg_at : Bool → ℤ → ℤ → PositionLeg
leg_at long strike price = record {
  is_long = long;
  quantity = pos 1;
  entry_price = price;
  contract_size = pos 100;
  option_type = some call;
  strike = some strike;
  expiry = some 20;
  symbol = 7;
  bid = none;
  ask = none;
  open_interest = pos 0;
  volume = pos 0;
  ins_code = none;
}

abbrev spread : StrategyPayoff
spread = record {
  legs = leg_at true (pos 100) (pos 10) ∷ leg_at false (pos 120) (pos 4) ∷ [];
  expiration = some 20;
  commission_rate = pos 0;
  underlying_price = some (pos 105);
  required_margin = none;
  single_expiry = true;
}

abbrev spread_legs : All (IsOption (pos 100)) spread.legs
spread_legs = (
  record {
    kind = call;
    price = pos 100;
    is_kind = refl;
    at = refl;
    price_nonneg = omega arith;
    sized = refl;
  },
  (
    record {
      kind = call;
      price = pos 120;
      is_kind = refl;
      at = refl;
      price_nonneg = omega arith;
      sized = refl;
    },
    tt,
  ),
)

abbrev quotient_nonneg : (a b : ℤ) → pos 0 ≤ℤ a → pos 0 ≤ℤ b → pos 0 ≤ℤ quotient a b
unfolding floor_div
quotient_nonneg (pos a) b h k = omega arith
quotient_nonneg (negsuc a) b h k = absurd (omega (arith, h))

max_profit_greatest_example :
    ((x : ℤ) → pos 0 ≤ℤ x → payoff quotient spread x ≤ℤ pos 1400)
    × TakenAt (payoff quotient spread) (λ x. pos 0 ≤ℤ x) (pos 1400)
unfolding max_profit has_unlimited_upside ◌+ℤ◌ is_option extreme sort_by distinct max_ℤ payoff ◌-ℤ◌
    ◌*ℤ◌ floor_div
max_profit_greatest_example =
    max_profit_greatest quotient quotient_nonneg spread (pos 100) spread_legs (omega arith)
      (omega arith) (pos 1400) refl

max_loss_least_example :
    ((x : ℤ) → pos 0 ≤ℤ x → negsuc 599 ≤ℤ payoff quotient spread x)
    × TakenAt (payoff quotient spread) (λ x. pos 0 ≤ℤ x) (negsuc 599)
unfolding max_loss has_unlimited_downside ◌+ℤ◌ is_option extreme sort_by distinct min_ℤ payoff ◌-ℤ◌
    ◌*ℤ◌ max_ℤ floor_div
max_loss_least_example =
    max_loss_least quotient quotient_nonneg spread (pos 100) spread_legs (omega arith) (omega arith)
      (negsuc 599) refl
