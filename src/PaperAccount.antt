-- ===== src/PaperAccount.antt =====
-- option_signal_bot/execution/paper_account.py: valuation and reconciliation of the paper account.
-- An amount is an integer number of hundredths of a rial; a percentage is a quotient of two.
mod Parts
pub mod Totals
pub mod Reconcile
unfoldable pub use Parts.*
use kh_optionbaz.Prelude.{
  ℕ, suc, ◌+◌, ◌==◌, Bool, true, false, not, ◌&&◌, ◌||◌, Option, none, some, List, [], ◌∷◌, keep,
  sum_of, length, if◌then◌else◌, leb_ℤ, ℤ, pos, ◌+ℤ◌, ◌-ℤ◌, ◌*ℤ◌, abs, Ratio, ratio,
}
use kh_optionbaz.PaperStore.{TradeRow}

-- RECONCILIATION_TOLERANCE, 0.01 rial
abbrev pub reconciliation_tolerance : ℤ
reconciliation_tolerance = pos 1

pub record AccountSnapshot : Type 0 where
  pub initial_balance : ℤ
  pub cash : ℤ
  pub positions : List PositionValuation
  pub realized : RealizedTotals
  pub rates_configured : Bool
  pub blocked : ℤ
  pub priced_at : Option ℕ

unfoldable pub available : AccountSnapshot → ℤ
available a = a.cash -ℤ a.blocked

unfoldable pub priced_positions : AccountSnapshot → List PositionValuation
unfolding is_priced
priced_positions a = keep (λ p. is_priced p.status) a.positions

unfoldable pub unpriced_positions : AccountSnapshot → List PositionValuation
unfolding is_priced
unpriced_positions a = keep (λ p. not (is_priced p.status)) a.positions

abbrev is_empty : {A : Type 0} → List A → Bool
is_empty [] = true
is_empty (x ∷ xs) = false

unfoldable pub valuation_complete : AccountSnapshot → Bool
unfolding unpriced_positions
valuation_complete a = is_empty (unpriced_positions a)

-- `x or 0.0`
abbrev pub or_zero : Option ℤ → ℤ
or_zero none = pos 0
or_zero (some x) = x

unfoldable pub market_value_priced : AccountSnapshot → ℤ
unfolding priced_positions market_value
market_value_priced a = sum_of (λ p. or_zero (market_value p)) (priced_positions a)

-- `AccountSnapshot.market_value`
unfoldable pub account_market_value : AccountSnapshot → Option ℤ
unfolding market_value_priced valuation_complete
account_market_value a = if valuation_complete a then some (market_value_priced a) else none

unfoldable pub account_unrealized_gross : AccountSnapshot → Option ℤ
unfolding priced_positions unrealized_gross valuation_complete
account_unrealized_gross a =
    if valuation_complete a
    then some (sum_of (λ p. or_zero (unrealized_gross p)) (priced_positions a))
    else none

abbrev is_none : Option ℤ → Bool
is_none none = true
is_none (some x) = false

abbrev any_none : List PositionValuation → Bool
any_none [] = false
any_none (p ∷ ps) = is_none (unrealized_net p) || any_none ps

-- `AccountSnapshot.unrealized_net`
unfoldable pub account_unrealized_net : AccountSnapshot → Option ℤ
unfolding priced_positions unrealized_net valuation_complete
account_unrealized_net a =
    if valuation_complete a
    then (if any_none (priced_positions a)
        then none
        else some (sum_of (λ p. or_zero (unrealized_net p)) (priced_positions a)))
    else none

unfoldable pub open_entry_costs : AccountSnapshot → ℤ
open_entry_costs a = sum_of (λ p. p.entry_fees_open) a.positions

unfoldable pub positions_with_unknown_cost : AccountSnapshot → List PositionValuation
positions_with_unknown_cost a = keep (λ p. not p.entry_fees_known) a.positions

unfoldable pub costs_known : AccountSnapshot → Bool
unfolding costs_complete positions_with_unknown_cost
costs_known a = costs_complete a.realized && is_empty (positions_with_unknown_cost a)

unfoldable pub total_costs_recorded : AccountSnapshot → ℤ
unfolding costs open_entry_costs
total_costs_recorded a = costs a.realized +ℤ open_entry_costs a

abbrev plus_cash : ℤ → Option ℤ → Option ℤ
plus_cash cash none = none
plus_cash cash (some value) = some (cash +ℤ value)

-- `AccountSnapshot.equity`
unfoldable pub equity : AccountSnapshot → Option ℤ
unfolding account_market_value
equity a = plus_cash a.cash (account_market_value a)

unfoldable pub equity_priced_part : AccountSnapshot → ℤ
unfolding market_value_priced
equity_priced_part a = a.cash +ℤ market_value_priced a

abbrev return_of : ℤ → Option ℤ → Option Ratio
return_of initial none = none
return_of initial (some e) =
    if leb_ℤ initial (pos 0) then none else some (ratio ((e -ℤ initial) *ℤ pos 100) initial)

unfoldable pub total_return_pct : AccountSnapshot → Option Ratio
unfolding equity
total_return_pct a = return_of a.initial_balance (equity a)

-- The dictionary of `reconciliation`; `unknown` is the one that is not applicable.
pub data Reconciliation : Type 0 where
  unknown : Reconciliation
  checked : (actual expected difference : ℤ) → Bool → Reconciliation

abbrev reconcile : ℤ → Option ℤ → Option ℤ → Option ℤ → Reconciliation
reconcile initial (some e) (some unrealized) (some realized) =
    let actual = e -ℤ initial in
    let expected = realized +ℤ unrealized in
    let difference = actual -ℤ expected in
    checked actual expected difference (leb_ℤ (abs difference) reconciliation_tolerance)
reconcile initial _ _ _ = unknown

unfoldable pub reconciliation : AccountSnapshot → Reconciliation
unfolding equity account_unrealized_net net
reconciliation a =
    reconcile a.initial_balance (equity a) (account_unrealized_net a) (net a.realized)

-- `check_affordable`: whether the order is not rejected.
unfoldable pub check_affordable : ℤ → ℤ → Bool
check_affordable required available = leb_ℤ required (available +ℤ reconciliation_tolerance)

-- `allocate_entry_fee`
unfoldable pub allocate_entry_fee : (ℤ → ℤ → ℤ) → ℤ → ℤ → ℤ → ℤ
allocate_entry_fee divide total closing held =
    if leb_ℤ held (pos 0)
    then pos 0
    else if leb_ℤ held closing
    then total
    else divide (total *ℤ closing) held

abbrev count_missing : Option ℤ → ℕ → ℕ
count_missing none n = suc n
count_missing (some x) n = n

-- One turn of the loop of `summarize_trades`.
unfoldable pub add_trade : TradeRow → RealizedTotals → RealizedTotals
add_trade t r = record {
  gross = r.gross +ℤ or_zero t.gross_pnl;
  entry_costs = r.entry_costs +ℤ or_zero t.entry_fee;
  exit_costs = r.exit_costs +ℤ or_zero t.exit_fee;
  trade_count = suc r.trade_count;
  trades_missing_entry_cost = count_missing t.entry_fee r.trades_missing_entry_cost;
  trades_missing_exit_cost = count_missing t.exit_fee r.trades_missing_exit_cost;
}

abbrev pub no_trades : RealizedTotals
no_trades = record {
  gross = pos 0;
  entry_costs = pos 0;
  exit_costs = pos 0;
  trade_count = 0;
  trades_missing_entry_cost = 0;
  trades_missing_exit_cost = 0;
}

unfoldable pub summarize_from : List TradeRow → RealizedTotals → RealizedTotals
unfolding add_trade
summarize_from [] r = r
summarize_from (t ∷ ts) r = summarize_from ts (add_trade t r)

unfoldable pub summarize_trades : List TradeRow → RealizedTotals
unfolding summarize_from
summarize_trades ts = summarize_from ts no_trades

-- `return_on_cost_pct`
unfoldable pub return_on_cost_pct : Option ℤ → Option ℤ → Option Ratio
return_on_cost_pct (some n) (some cost) =
    if leb_ℤ cost (pos 0) then none else some (ratio (n *ℤ pos 100) cost)
return_on_cost_pct _ _ = none
