-- ===== src/PaperBroker/Valuation.antt =====
-- `value_positions`, `realized_totals`, `account_snapshot` and `reset` of
-- option_signal_bot/execution/paper_broker.py.
pub mod Priced
pub mod Shape
use kh_optionbaz.Prelude.{
  ℕ, Bool, Option, none, some, List, [], ◌∷◌, if◌then◌else◌, ltb, ltb_ℤ, leb_ℤ, ℤ, pos,
}
use kh_optionbaz.OrderBook.{OrderBook, sell, fill_price, best_bid}
use kh_optionbaz.Fees.{FeeSchedule, rates_known}
use kh_optionbaz.PaperAccount.{
  PositionValuation, ValuationStatus, partial_depth, no_depth, unavailable, expired_unsettled,
  RealizedTotals, AccountSnapshot, summarize_trades,
}
use kh_optionbaz.PaperStore.{
  Account, PositionRow, M, pure, ◌>>=◌, ◌>>◌, get_account, list_positions, list_trades,
}
use kh_optionbaz.PaperStore
use kh_optionbaz.PaperBroker.{Contract, Market, Call, listed, cash_of, or_value_error}
use kh_optionbaz.PaperBroker.Ledger.{size_or_one}

abbrev pub build :
    PositionRow → Option Contract → ValuationStatus → Option ℤ → Option ℤ → ℤ → PositionValuation
build row contract status mark reference fillable = record {
  symbol = row.symbol;
  quantity = row.quantity;
  contract_size = size_or_one contract;
  average_price = row.average_price;
  entry_fees_open = row.entry_fees;
  status = status;
  entry_fees_known = row.entry_fees_known;
  mark_price = mark;
  reference_price = reference;
  fillable_quantity = fillable;
}

-- What the fill of the whole position says of its value.
unfoldable pub value_fill :
    PositionRow → Option Contract → OrderBook → Option ℤ × ℤ → PositionValuation
value_fill row contract book (none, fillable) =
    build row contract no_depth none (best_bid book) (pos 0)
value_fill row contract book (some mark, fillable) =
    if leb_ℤ fillable (pos 0)
    then build row contract no_depth none (best_bid book) (pos 0)
    else if ltb_ℤ fillable row.quantity
    then build row contract partial_depth none (best_bid book) fillable
    else build row contract ValuationStatus.ok (some mark) (best_bid book) fillable

module _ (divide : ℤ → ℤ → ℤ) (market : Market) where
  -- `_value_one`; `none` is a ValueError.
  unfoldable pub value_one : PositionRow → ℕ → Option PositionValuation
  unfolding value_fill
  value_one row today =
      let contract = market.resolve_contract row.symbol in
      elim (listed contract) [
        | none ↦ some (build row contract unavailable none none (pos 0))
        | some (known, ins_code) ↦
            if ltb known.expiry today
            then some (build row contract expired_unsettled none none (pos 0))
            else elim (market.try_get_order_book ins_code row.symbol) [
              | none ↦ some (build row contract unavailable none none (pos 0))
              | some book ↦ elim (fill_price divide book sell row.quantity) [
                | none ↦ none
                | some fill ↦ some (value_fill row contract book fill)
              ]
            ]
      ]

  abbrev pub both_of :
      Option PositionValuation → Option (List PositionValuation) → Option (List PositionValuation)
  both_of (some v) (some vs) = some (v ∷ vs)
  both_of _ _ = none

  abbrev pub value_all : List PositionRow → ℕ → Option (List PositionValuation)
  value_all [] today = some []
  value_all (row ∷ rows) today = both_of (value_one row today) (value_all rows today)

  unfoldable pub value_positions : ℕ → M (List PositionValuation)
  unfolding list_positions
  value_positions today = do rows ← list_positions; or_value_error (value_all rows today)

  abbrev initial_of : Option Account → ℤ
  initial_of none = pos 0
  initial_of (some a) = a.initial_balance

  -- `realized_totals`, of all trades or of those since a time.
  unfoldable pub realized_totals : Option ℕ → M RealizedTotals
  unfolding list_trades
  realized_totals since = do trades ← list_trades since; pure (summarize_trades trades)

  unfoldable pub account_snapshot : FeeSchedule → Call → M AccountSnapshot
  unfolding get_account value_positions realized_totals
  account_snapshot fees c = do
    account ← get_account
    positions ← value_positions c.today
    realized ← realized_totals none
    pure (record {
      initial_balance = initial_of account;
      cash = cash_of account;
      positions = positions;
      realized = realized;
      rates_configured = rates_known fees;
      blocked = pos 0;
      priced_at = some c.now;
    })

  -- `PaperBroker.reset`: back to the initial balance of the account.
  unfoldable pub reset : Call → M (Option Account)
  unfolding get_account PaperStore.reset
  reset c = do account ← get_account; PaperStore.reset (initial_of account) c.now
