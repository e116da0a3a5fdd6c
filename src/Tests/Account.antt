-- ===== src/Tests/Account.antt =====
-- The theorems on the store, the account and its reports at concrete inputs.
use kh_optionbaz.Prelude.{
  ℕ, ◌≡◌, ◌↔◌, refl, arith, true, none, some, List, [], ◌∷◌, All, ℤ, pos, negsuc, ◌+ℤ◌, leb_ℤ, abs,
  ratio,
}
use kh_optionbaz.PaperStore.{
  Store, TradeRow, PositionRow, Result, value_error, write, raise, ◌>>◌, transaction, init_account,
  manual,
}
use kh_optionbaz.PaperStore.Transaction.{transaction_atomic, IsSettled, Ends}
use kh_optionbaz.PaperAccount.{
  AccountSnapshot, PositionValuation, ValuationStatus, no_trades, costs_complete, is_priced,
  reconciliation, reconciliation_tolerance, checked,
}
use kh_optionbaz.PaperAccount.Reconcile.{reconciliation-gap, gap, IsValued}
use kh_optionbaz.PaperBroker.Valuation.{value_one}
use kh_optionbaz.PaperBroker.Valuation.Priced.{value_one-IsPriced_iff, IsPriced, IsSaleable}
use kh_optionbaz.PaperBroker.Drawdown.{Drawdown, realized_drawdown}
use kh_optionbaz.PaperBroker.Drawdown.Largest.{
  realized_drawdown-IsLargestFall, IsLargestFall, curve,
}
use kh_optionbaz.PaperStore.{trades_since}
use kh_optionbaz.Tests.{fresh, quotient, market}

-- Two writes, of which the second raises.
transaction_atomic_example :
    let body = write (λ t. record t { orders = [] }) >> raise value_error in
    let (r, made) = body (record fresh { depth = 1 }) in
    let (r', after) = transaction body fresh in
    (r' ≡ r) × IsSettled after × Ends {A = Unit {0}} r fresh made.working after
unfolding init_account
transaction_atomic_example =
    transaction_atomic {A = Unit {0}} (write (λ t. record t { orders = [] }) >> raise value_error)
      fresh (λ s h. ground arith) (record { outside = refl; clean = refl })

abbrev row : PositionRow
row = record {
  symbol = 7;
  quantity = pos 2;
  average_price = pos 100;
  opened_at = 2;
  updated_at = 2;
  entry_fees = pos 25;
  entry_fees_known = true;
}

value_one-IsPriced_iff_example :
    (v : PositionValuation) × (value_one quotient market row 10 ≡ some v)
    × (IsPriced v ↔ IsSaleable market row 10)
value_one-IsPriced_iff_example = value_one-IsPriced_iff quotient market row 10 (omega arith)

abbrev trade : ℤ → ℕ → TradeRow
trade pnl closed_at = record {
  trade_id = closed_at;
  symbol = 7;
  quantity = pos 1;
  entry_price = pos 100;
  exit_price = pos 95;
  fee_paid = pos 10;
  entry_fee = some (pos 5);
  exit_fee = some (pos 5);
  gross_pnl = some (pnl +ℤ pos 10);
  pnl_absolute = pnl;
  pnl_pct = ratio (pos 0) (pos 1);
  return_on_cost_pct = none;
  contract_size = some (pos 100);
  opened_at = 1;
  closed_at = closed_at;
  signal_id = none;
  close_reason = manual;
}

abbrev trades : List TradeRow
trades = trade (pos 300) 2 ∷ trade (negsuc 199) 3 ∷ trade (pos 50) 4 ∷ []

abbrev traded : Store
traded = record fresh {
  working = record { account = none; orders = []; positions = []; trades = trades };
}

realized_drawdown-IsLargestFall_example :
    (opening : ℤ) × (d : Drawdown) × (realized_drawdown (some 3) traded
      ≡ (Result.ok (opening, d), traded))
    × IsLargestFall (opening ∷ curve opening (trades_since (some 3) trades)) d.worst_currency
realized_drawdown-IsLargestFall_example = realized_drawdown-IsLargestFall (some 3) traded

-- The account after the buy, valued at 95.
abbrev snapshot : AccountSnapshot
snapshot = record {
  initial_balance = pos 1000000;
  cash = pos 979975;
  positions =
      record {
        symbol = 7;
        quantity = pos 2;
        contract_size = pos 100;
        average_price = pos 100;
        entry_fees_open = pos 25;
        status = ValuationStatus.ok;
        entry_fees_known = true;
        mark_price = some (pos 95);
        reference_price = some (pos 95);
        fillable_quantity = pos 2;
      }
      ∷ [];
  realized = no_trades;
  rates_configured = true;
  blocked = pos 0;
  priced_at = some 3;
}

snapshot-valued : All IsValued snapshot.positions
unfolding is_priced
snapshot-valued = (record { mark = pos 95; marked = refl; priced = refl; fees_known = refl }, tt)

snapshot-complete : costs_complete snapshot.realized ≡ true
unfolding costs_complete
snapshot-complete = refl

reconciliation-gap_example :
    (actual : ℤ) × (expected : ℤ) × (reconciliation snapshot
      ≡ checked actual expected
          (gap snapshot snapshot-valued snapshot-complete)
          (leb_ℤ (abs (gap snapshot snapshot-valued snapshot-complete)) reconciliation_tolerance))
reconciliation-gap_example = reconciliation-gap snapshot snapshot-valued snapshot-complete
