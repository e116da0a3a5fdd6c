-- ===== src/Risk.antt =====
-- option_signal_bot/risk/risk_calculator.py: how many contracts a signal may suggest. `divide` is the
-- division of floats, brought back to the unit of the amounts, which is 0.01; `round_to n` rounds an
-- amount to n decimals. Of the notes only their kind is modelled.
pub mod Limits
use kh_optionbaz.Prelude.{
  ℕ, Bool, true, false, not, ◌&&◌, ◌||◌, Option, none, some, if◌then◌else◌, ltb_ℤ, leb_ℤ, ℤ, pos,
  pos_part, ◌+ℤ◌, ◌-ℤ◌, ◌*ℤ◌, min_ℤ, max_ℤ, floor_div, same, Ratio,
}
use kh_optionbaz.Fees.{FeeSchedule, net_take_profit, round_trip_cost}

pub record RiskLimits : Type 0 where
  pub account_equity : ℤ
  pub risk_per_trade_pct : Ratio
  pub max_position_pct : Ratio
  pub max_contracts : ℤ
  pub stop_loss_pct : Ratio
  pub take_profit_pct : Ratio

-- The sentences of `_explain`, and that of an invalid premium.
pub data RiskNote : Type 0 where
  invalid_premium nothing_fits at_max_contracts at_exposure by_risk : RiskNote

pub record RiskSuggestion : Type 0 where
  pub suggested_qty : ℤ
  pub stop_loss : Option ℤ
  pub take_profit : Option ℤ
  pub max_loss : ℤ
  pub notes : RiskNote
  pub round_trip_fees : ℤ

unfoldable pub is_tradable : RiskSuggestion → Bool
is_tradable s = ltb_ℤ (pos 0) s.suggested_qty

-- The fields of a signal that are read and enriched.
pub record Signal : Type 0 where
  pub is_buy : Bool
  pub suggested_price : ℤ
  pub suggested_qty : ℤ
  pub stop_loss : Option ℤ
  pub take_profit : Option ℤ
  pub contract_size : Option ℤ
  pub max_loss : Option ℤ
  pub risk_notes : Option RiskNote
  pub round_trip_fees : Option ℤ

-- `_explain`
unfoldable pub explain : ℤ → ℤ → ℤ → RiskLimits → RiskNote
explain qty qty_by_risk qty_by_exposure limits =
    if same qty (pos 0)
    then nothing_fits
    else if same qty limits.max_contracts
    then at_max_contracts
    else if same qty qty_by_exposure && ltb_ℤ qty_by_exposure qty_by_risk
    then at_exposure
    else by_risk

-- `int(budget // max(risk, 1e-9))`: where the risk is not positive, 1e-9 stands for it.
unfoldable pub contracts_for : ℤ → ℤ → ℤ
unfolding floor_div
contracts_for budget risk =
    if leb_ℤ risk (pos 0) then budget *ℤ pos 10000000 else floor_div budget (pos_part risk)

abbrev pub percent_of : (ℤ → ℤ → ℤ) → ℤ → Ratio → ℤ
percent_of divide amount pct = divide (amount *ℤ pct.num) (pct.den *ℤ pos 100)

module _ (divide : ℤ → ℤ → ℤ) (round_to : ℕ → ℤ → ℤ) where
  -- What is at risk in one contract, with its fees.
  unfoldable pub risk_per_contract : RiskLimits → FeeSchedule → Bool → ℤ → ℤ
  unfolding round_trip_cost
  risk_per_contract limits fees is_buy cost =
      (if is_buy then percent_of divide cost limits.stop_loss_pct else cost *ℤ pos 2)
      +ℤ round_trip_cost divide fees cost is_buy

  unfoldable pub stop_of : RiskLimits → Bool → ℤ → ℤ
  stop_of limits is_buy premium =
      let whole = limits.stop_loss_pct.den *ℤ pos 100 in
      let fraction = limits.stop_loss_pct.num in
      round_to 1 (
        if is_buy
        then divide (premium *ℤ (whole -ℤ fraction)) whole
        else divide (premium *ℤ (whole +ℤ fraction)) whole)

  -- The number of contracts.
  unfoldable pub quantity_for : RiskLimits → ℤ → ℤ → ℤ
  unfolding contracts_for floor_div
  quantity_for limits cost risk =
      let by_exposure =
        floor_div (percent_of divide limits.account_equity limits.max_position_pct)
          (pos_part cost) in
      let by_risk_budget =
        contracts_for (percent_of divide limits.account_equity limits.risk_per_trade_pct) risk in
      max_ℤ (min_ℤ (min_ℤ by_risk_budget by_exposure) limits.max_contracts) (pos 0)

  unfoldable pub evaluate_risk : RiskLimits → FeeSchedule → Signal → ℤ → RiskSuggestion
  unfolding risk_per_contract stop_of quantity_for explain net_take_profit round_trip_cost
      contracts_for
  evaluate_risk limits fees signal contract_size =
      let premium = max_ℤ signal.suggested_price (pos 0) in
      let cost = premium *ℤ contract_size in
      let risk = risk_per_contract limits fees signal.is_buy cost in
      let qty = quantity_for limits cost risk in
      let refused : RiskSuggestion = record {
        suggested_qty = pos 0;
        stop_loss = none;
        take_profit = none;
        max_loss = pos 0;
        notes = invalid_premium;
        round_trip_fees = pos 0;
      } in
      let by_risk_budget =
        contracts_for (percent_of divide limits.account_equity limits.risk_per_trade_pct) risk in
      let by_exposure =
        floor_div (percent_of divide limits.account_equity limits.max_position_pct)
          (pos_part cost) in
      if leb_ℤ premium (pos 0) || leb_ℤ contract_size (pos 0) then refused else record {
        suggested_qty = qty;
        stop_loss = if ltb_ℤ (pos 0) qty then some (stop_of limits signal.is_buy premium) else none;
        take_profit =
            if ltb_ℤ (pos 0) qty
            then some (
                round_to 1
                  (net_take_profit divide fees premium limits.take_profit_pct signal.is_buy))
            else none;
        max_loss = round_to 0 (qty *ℤ risk);
        notes = explain qty by_risk_budget by_exposure limits;
        round_trip_fees = round_to 0 (round_trip_cost divide fees (qty *ℤ cost) signal.is_buy);
      }

  abbrev fees_noted : Option ℤ → ℤ → Option ℤ
  fees_noted before fees = if same fees (pos 0) then before else some fees

  -- `apply`
  unfoldable pub apply_risk : RiskLimits → FeeSchedule → Signal → ℤ → Option Signal
  unfolding evaluate_risk is_tradable
  apply_risk limits fees signal contract_size =
      let s = evaluate_risk limits fees signal contract_size in
      if not (is_tradable s)
      then none
      else some (record {
        is_buy = signal.is_buy;
        suggested_price = signal.suggested_price;
        suggested_qty = s.suggested_qty;
        stop_loss = s.stop_loss;
        take_profit = s.take_profit;
        contract_size = some contract_size;
        max_loss = some s.max_loss;
        risk_notes = some s.notes;
        round_trip_fees = fees_noted signal.round_trip_fees s.round_trip_fees;
      })
