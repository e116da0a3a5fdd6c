-- ===== src/PaperBroker/Drawdown.antt =====
-- `realized_drawdown` of option_signal_bot/execution/paper_broker.py: the largest falls of the cash
-- curve of the closed trades, in rials and in percent of the peak.
pub mod Largest
use kh_optionbaz.Prelude.{
  ℕ, zero, suc, ◌-◌, Option, none, some, List, [], ◌∷◌, length, sum_of, if◌then◌else◌, ltb_ℤ, ℤ,
  pos, ◌+ℤ◌, ◌-ℤ◌, ◌*ℤ◌, max_ℤ, Ratio, ratio, ratio_ltb,
}
use kh_optionbaz.PaperStore.{Account, TradeRow, M, pure, ◌>>=◌, get_account, list_trades}

-- What the loop keeps.
pub record Drawdown : Type 0 where
  pub equity : ℤ
  pub peak : ℤ
  pub worst_currency : ℤ
  pub worst_currency_at : Option ℕ
  pub worst_pct : Ratio
  pub worst_pct_at : Option ℕ

abbrev pub start_at : ℤ → Drawdown
start_at opening = record {
  equity = opening;
  peak = opening;
  worst_currency = pos 0;
  worst_currency_at = none;
  worst_pct = ratio (pos 0) (pos 1);
  worst_pct_at = none;
}

-- The fall from the peak, in rials.
unfoldable pub record_currency : TradeRow → Drawdown → Drawdown
record_currency t d =
    if ltb_ℤ d.worst_currency (d.peak -ℤ d.equity)
    then record d { worst_currency = d.peak -ℤ d.equity; worst_currency_at = some t.closed_at }
    else d

-- The fall from the peak, in percent of a peak above zero.
unfoldable pub record_pct : TradeRow → Drawdown → Drawdown
record_pct t d =
    let pct = ratio ((d.peak -ℤ d.equity) *ℤ pos 100) d.peak in
    if ltb_ℤ (pos 0) d.peak
    then (if ratio_ltb d.worst_pct pct
        then record d { worst_pct = pct; worst_pct_at = some t.closed_at }
        else d)
    else d

-- One turn of the loop.
unfoldable pub add_close : TradeRow → Drawdown → Drawdown
unfolding record_currency record_pct
add_close t d =
    let equity = d.equity +ℤ t.pnl_absolute in
    record_pct t (record_currency t (record d { equity = equity; peak = max_ℤ d.peak equity }))

unfoldable pub add_closes : List TradeRow → Drawdown → Drawdown
unfolding add_close
add_closes [] d = d
add_closes (t ∷ ts) d = add_closes ts (add_close t d)

abbrev take : ℕ → List TradeRow → List TradeRow
take n [] = []
take zero (t ∷ ts) = []
take (suc n) (t ∷ ts) = t ∷ take n ts

abbrev initial_of : Option Account → ℤ
initial_of none = pos 0
initial_of (some a) = a.initial_balance

-- The balance at the start of the window: what the trades before it have left.
abbrev pub opening_of : Option ℕ → ℤ → List TradeRow → List TradeRow → ℤ
opening_of none initial window everything = initial
opening_of (some since) initial window everything =
    initial +ℤ sum_of (λ t. t.pnl_absolute) (take (length everything - length window) everything)

-- `realized_drawdown`: the opening balance, and what the loop ends with.
unfoldable pub realized_drawdown : Option ℕ → M (ℤ × Drawdown)
unfolding get_account list_trades add_closes
realized_drawdown since = do
  account ← get_account
  window ← list_trades since
  everything ← list_trades none
  let opening = opening_of since (initial_of account) window everything
  pure (opening, add_closes window (start_at opening))
