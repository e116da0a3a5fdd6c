-- ===== src/PaperAccount/Parts.antt =====
-- The valuation of one position and the totals of the closed trades, of
-- option_signal_bot/execution/paper_account.py (`ValuationStatus`, `PositionValuation`,
-- `RealizedTotals`).
use kh_optionbaz.Prelude.{
  ℕ, ◌==◌, Bool, true, false, ◌&&◌, Option, none, some, if◌then◌else◌, ℤ, ◌+ℤ◌, ◌-ℤ◌, ◌*ℤ◌,
}

pub data ValuationStatus : Type 0 where
  ok partial_depth no_depth unavailable expired_unsettled : ValuationStatus

unfoldable pub is_priced : ValuationStatus → Bool
is_priced ok = true
is_priced partial_depth = false
is_priced no_depth = false
is_priced unavailable = false
is_priced expired_unsettled = false

pub record PositionValuation : Type 0 where
  pub symbol : ℕ
  pub quantity : ℤ
  pub contract_size : ℤ
  pub average_price : ℤ
  pub entry_fees_open : ℤ
  pub status : ValuationStatus
  pub entry_fees_known : Bool
  pub mark_price : Option ℤ
  pub reference_price : Option ℤ
  pub fillable_quantity : ℤ

unfoldable pub gross_cost : PositionValuation → ℤ
gross_cost p = p.average_price *ℤ p.quantity *ℤ p.contract_size

unfoldable pub cost_basis : PositionValuation → Option ℤ
unfolding gross_cost
cost_basis p = if p.entry_fees_known then some (gross_cost p +ℤ p.entry_fees_open) else none

abbrev value_at : PositionValuation → Option ℤ → Option ℤ
value_at p none = none
value_at p (some mark) = some (mark *ℤ p.quantity *ℤ p.contract_size)

-- `PositionValuation.market_value`
unfoldable pub market_value : PositionValuation → Option ℤ
unfolding is_priced
market_value p = if is_priced p.status then value_at p p.mark_price else none

abbrev gross_of : PositionValuation → Option ℤ → Option ℤ
gross_of p none = none
gross_of p (some value) = some (value -ℤ p.average_price *ℤ p.quantity *ℤ p.contract_size)

unfoldable pub unrealized_gross : PositionValuation → Option ℤ
unfolding market_value
unrealized_gross p = gross_of p (market_value p)

abbrev net_of : PositionValuation → Option ℤ → Option ℤ
net_of p none = none
net_of p (some gross) = if p.entry_fees_known then some (gross -ℤ p.entry_fees_open) else none

unfoldable pub unrealized_net : PositionValuation → Option ℤ
unfolding unrealized_gross
unrealized_net p = net_of p (unrealized_gross p)

pub record RealizedTotals : Type 0 where
  pub gross : ℤ
  pub entry_costs : ℤ
  pub exit_costs : ℤ
  pub trade_count : ℕ
  pub trades_missing_entry_cost : ℕ
  pub trades_missing_exit_cost : ℕ

unfoldable pub costs : RealizedTotals → ℤ
costs r = r.entry_costs +ℤ r.exit_costs

unfoldable pub costs_complete : RealizedTotals → Bool
costs_complete r = r.trades_missing_entry_cost == 0 && r.trades_missing_exit_cost == 0

-- `RealizedTotals.net`
unfoldable pub net : RealizedTotals → Option ℤ
unfolding costs costs_complete
net r = if costs_complete r then some (r.gross -ℤ costs r) else none
