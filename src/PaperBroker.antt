-- ===== src/PaperBroker.antt =====
-- option_signal_bot/execution/paper_broker.py: `PaperBroker`. The contracts, the order books and
-- the fee rates are parameters; the clock and the fresh identifiers of a call are its argument
-- `Call`. `metadata` keeps the reason of a rejection.
mod Types
mod Rows
mod Apply
pub mod Valuation
pub mod Drawdown
pub mod Reject
pub mod Effects
pub mod Ledger
pub mod Expiry
pub mod Queries
unfoldable pub use Types.*
unfoldable pub use Rows.*
unfoldable pub use Apply.*
use kh_optionbaz.Prelude.{
  ℕ, Bool, true, false, not, Option, none, some, if◌then◌else◌, ltb, ltb_ℤ, leb_ℤ, ℤ, pos, ◌+ℤ◌,
  ◌-ℤ◌, ◌*ℤ◌,
}
use kh_optionbaz.OrderBook.{OrderBook, SideWord, fill_price}
use kh_optionbaz.Fees.{FeeSchedule, exit_cost, rates_known}
use kh_optionbaz.PaperStore.{
  OrderRow, bad_quantity, bad_side, not_held, no_contract, expired, no_book, PositionRow, TradeRow,
  expiry_settlement, M, pure, raise, value_error, ◌>>=◌, ◌>>◌, transaction, get_account,
  update_cash, get_position, delete_position, record_trade,
}

module _ (divide : ℤ → ℤ → ℤ) (fees : FeeSchedule) (market : Market) where
  open market use {resolve_contract, try_get_order_book}

  -- From the contract on: the expiry and the order book.
  unfoldable pub find_fill : ℕ → SideWord → Bool → ℤ → Call → Contract → ℕ → M OrderRow
  find_fill symbol side is_buy quantity c contract ins_code =
      if ltb contract.expiry c.today
      then reject symbol side quantity c expired
      else elim (try_get_order_book ins_code symbol) [
        | none ↦ reject symbol side quantity c no_book
        | some book ↦ elim (fill_price divide book side quantity) [
          | none ↦ raise value_error
          | some fill ↦ settle_fill divide fees symbol side is_buy quantity c contract fill
        ]
      ]

  unfoldable pub find_contract : ℕ → SideWord → Bool → ℤ → Call → M OrderRow
  find_contract symbol side is_buy quantity c = elim (listed (resolve_contract symbol)) [
    | none ↦ reject symbol side quantity c no_contract
    | some (contract, ins_code) ↦ find_fill symbol side is_buy quantity c contract ins_code
  ]

  -- A sale wants a position that is large enough.
  unfoldable pub check_held : ℕ → SideWord → Bool → ℤ → Call → M OrderRow
  check_held symbol side is_buy quantity c =
      if is_buy then find_contract symbol side is_buy quantity c else (do
        position ← get_position symbol
        if ltb_ℤ (held_of position) quantity
            then reject symbol side quantity c not_held
            else find_contract symbol side is_buy quantity c)

  -- `place_order`
  unfoldable pub place_order : ℕ → SideWord → ℤ → Call → M OrderRow
  place_order symbol side quantity c =
      if leb_ℤ quantity (pos 0)
      then reject symbol side quantity c bad_quantity
      else elim (order_side side) [
        | none ↦ reject symbol side quantity c bad_side
        | some is_buy ↦ check_held symbol side is_buy quantity c
      ]

  -- `settle_position`, at the price that the user assumes; `none` is what `_finite` refuses.
  unfoldable pub settle_position : ℕ → Option ℤ → Call → M TradeRow
  settle_position symbol price c = do
    position ← get_position symbol
    p ← or_value_error position
    settlement ← or_value_error price
    if ltb_ℤ settlement (pos 0) then raise value_error else (do
      contract ← or_value_error (market.resolve_contract symbol)
      if not (ltb contract.expiry c.today)
          then raise value_error
          else settle_open divide fees symbol settlement p c contract)
