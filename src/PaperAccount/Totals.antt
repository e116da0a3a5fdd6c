-- ===== src/PaperAccount/Totals.antt =====
-- `summarize_trades` and `allocate_entry_fee` of option_signal_bot/execution/paper_account.py.
use kh_optionbaz.Prelude.{
  ℕ, ◌+◌, ◌≡◌, arith, Option, List, [], ◌∷◌, ℤ, ◌+ℤ◌, sum_of, length, int_laws, parts_eq, keep,
}
use kh_optionbaz.PaperStore.{TradeRow}
use kh_optionbaz.PaperAccount.{RealizedTotals, add_trade, summarize_from, or_zero, is_none}

abbrev pub missing : (TradeRow → Option ℤ) → List TradeRow → ℕ
missing f ts = length (keep (λ t. is_none (f t)) ts)

-- The totals as plain sums and counts.
pub record IsTotal (ts : List TradeRow) (r before : RealizedTotals) : Type 0 where
  pub gross_eq : r.gross ≡ before.gross +ℤ sum_of (λ t. or_zero t.gross_pnl) ts
  pub entry_eq : r.entry_costs ≡ before.entry_costs +ℤ sum_of (λ t. or_zero t.entry_fee) ts
  pub exit_eq : r.exit_costs ≡ before.exit_costs +ℤ sum_of (λ t. or_zero t.exit_fee) ts
  pub count_eq : r.trade_count ≡ before.trade_count + length ts
  pub missing_entry_eq :
      r.trades_missing_entry_cost ≡ before.trades_missing_entry_cost + missing (λ t. t.entry_fee) ts
  pub missing_exit_eq :
      r.trades_missing_exit_cost ≡ before.trades_missing_exit_cost + missing (λ t. t.exit_fee) ts

add_trade-IsTotal :
    (t : TradeRow) (ts : List TradeRow) (r before : RealizedTotals)
    → IsTotal ts r (add_trade t before)
    → IsTotal (t ∷ ts) r before
unfolding add_trade
add_trade-IsTotal t ts r before k = record {
  gross_eq = omega (int_laws, parts_eq k.gross_eq);
  entry_eq = omega (int_laws, parts_eq k.entry_eq);
  exit_eq = omega (int_laws, parts_eq k.exit_eq);
  count_eq = omega (arith, k.count_eq);
  missing_entry_eq = ground (arith, k.missing_entry_eq);
  missing_exit_eq = ground (arith, k.missing_exit_eq);
}

-- The loop of `summarize_trades`, from any totals on, adds the sums of what is recorded, counts each
-- trade once, and counts each trade with a missing cost: an unknown cost is never taken for zero
-- without being counted.
pub summarize_from-IsTotal :
    (ts : List TradeRow) (before : RealizedTotals) → IsTotal ts (summarize_from ts before) before
unfolding summarize_from
summarize_from-IsTotal [] before = record {
  gross_eq = omega int_laws;
  entry_eq = omega int_laws;
  exit_eq = omega int_laws;
  count_eq = omega arith;
  missing_entry_eq = omega arith;
  missing_exit_eq = omega arith;
}
summarize_from-IsTotal (t ∷ ts) before =
    add_trade-IsTotal t ts _ before (summarize_from-IsTotal ts (add_trade t before))
