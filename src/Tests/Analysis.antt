-- ===== src/Tests/Analysis.antt =====
-- The theorems on corporate actions, risk limits and metrics at concrete inputs.
use kh_optionbaz.Prelude.{
  ℕ, ◌≡◌, refl, arith, true, none, some, List, [], ◌∷◌, pos, negsuc, ◌<ℤ◌, ◌+ℤ◌, ◌-ℤ◌, ◌*ℤ◌, All,
  ratio, max_ℤ, min_ℤ, abs,
}
use kh_optionbaz.Tests.{quotient, rates}
use kh_optionbaz.Corporate.{
  CorporateAction, ShareChange, Terms, capital_increase, cash_dividend, log_of, adjust, collect,
}
use kh_optionbaz.Corporate.Periods.{adjust_in_two}
use kh_optionbaz.Corporate.Increases.{IsEachOnce, IsFound, collect-IsEachOnce}
use kh_optionbaz.Risk.{RiskLimits, Signal, by_risk, risk_per_contract, apply_risk}
use kh_optionbaz.Risk.Limits.{IsWithin, apply_risk-IsWithin}
use kh_optionbaz.Metrics.{longest_losing_streak}
use kh_optionbaz.Metrics.Losing.{IsLongest, longest_losing_streak-IsLongest}

-- A dividend of 50 on day 20, before that a doubling of the shares on day 10.
abbrev dividend : CorporateAction
dividend = record {
  underlying = 1;
  effective_date = 20;
  kind = cash_dividend;
  ratio = none;
  dividend = some (pos 50);
  shares_old = none;
  shares_new = none;
}

abbrev doubling : CorporateAction
doubling = record {
  underlying = 1;
  effective_date = 10;
  kind = capital_increase;
  ratio = some (ratio (pos 100) (pos 200));
  dividend = none;
  shares_old = some (pos 100);
  shares_new = some (pos 200);
}

abbrev terms : Terms
terms = record { strike = pos 1000; contract_size = pos 1000 }

adjust_in_two_example :
    adjust quotient quotient (log_of (dividend ∷ doubling ∷ [])) terms 5 30
    ≡ adjust quotient quotient
        (log_of (dividend ∷ doubling ∷ []))
        (adjust quotient quotient (log_of (dividend ∷ doubling ∷ [])) terms 5 15)
        15
        30
adjust_in_two_example =
    adjust_in_two quotient quotient (dividend ∷ doubling ∷ []) terms 5 15 30 (omega arith)
      (omega arith)

-- The same change, reported on two days.
abbrev change_on : ℕ → ShareChange
change_on day = record {
  number_of_share_old = some (pos 100);
  number_of_share_new = some (pos 200);
  when = some day;
}

abbrev changes : List ShareChange
changes = change_on 10 ∷ change_on 11 ∷ []

collect-IsEachOnce_example :
    IsEachOnce (collect 1 changes []) × All (IsFound 1 (collect 1 changes [])) changes
collect-IsEachOnce_example = collect-IsEachOnce 1 changes [] tt

abbrev limits : RiskLimits
limits = record {
  account_equity = pos 100000000;
  risk_per_trade_pct = ratio (pos 1) (pos 1);
  max_position_pct = ratio (pos 5) (pos 1);
  max_contracts = pos 50;
  stop_loss_pct = ratio (pos 35) (pos 1);
  take_profit_pct = ratio (pos 70) (pos 1);
}

abbrev signal : Signal
signal = record {
  is_buy = true;
  suggested_price = pos 620;
  suggested_qty = pos 0;
  stop_loss = none;
  take_profit = none;
  contract_size = none;
  max_loss = none;
  risk_notes = none;
  round_trip_fees = none;
}

longest_losing_streak-IsLongest_example :
    IsLongest
      (pos 3 ∷ negsuc 1 ∷ pos 0 ∷ negsuc 4 ∷ pos 2 ∷ negsuc 0 ∷ [])
      (longest_losing_streak (pos 3 ∷ negsuc 1 ∷ pos 0 ∷ negsuc 4 ∷ pos 2 ∷ negsuc 0 ∷ []))
longest_losing_streak-IsLongest_example =
    longest_losing_streak-IsLongest (pos 3 ∷ negsuc 1 ∷ pos 0 ∷ negsuc 4 ∷ pos 2 ∷ negsuc 0 ∷ [])

-- Four contracts, at a stop of 403 and a target of 1055.
abbrev enriched : Signal
enriched = record {
  is_buy = true;
  suggested_price = pos 620;
  suggested_qty = pos 4;
  stop_loss = some (pos 403);
  take_profit = some (pos 1055);
  contract_size = some (pos 1000);
  max_loss = some (pos 873000);
  risk_notes = some by_risk;
  round_trip_fees = some (pos 4970);
}

apply_risk-IsWithin_example :
    (pos 0 <ℤ pos 620)
    × (pos 0 <ℤ pos 1000)
    × IsWithin quotient
        (λ digits x. x)
        limits
        (pos 620 *ℤ pos 1000)
        (risk_per_contract quotient (λ digits x. x) limits rates true (pos 620 *ℤ pos 1000))
        (pos 4)
unfolding apply_risk max_ℤ min_ℤ abs ◌*ℤ◌ ◌+ℤ◌ ◌-ℤ◌
apply_risk-IsWithin_example =
    apply_risk-IsWithin quotient (λ digits x. x) limits rates signal enriched (pos 1000) refl
