-- ===== src/PaperBroker/Queries.antt =====
-- The methods of `PaperBroker` (option_signal_bot/execution/paper_broker.py) that only read:
-- `cancel_order`, `modify_order`, `get_order_status`, `get_positions`, `expired_positions`.
pub mod Closed
use kh_optionbaz.Prelude.{
  ℕ, Bool, true, false, Option, none, some, List, [], ◌∷◌, if◌then◌else◌, ltb, ℤ, map,
}
use kh_optionbaz.PaperStore.{
  OrderStatus, pending, open_status, partially_filled, filled, cancelled, rejected, OrderRow,
  PositionRow, M, pure, raise, value_error, ◌>>=◌, get_order, list_positions,
}
use kh_optionbaz.PaperBroker.{Contract, Market, or_value_error}

-- `order["status"] == OrderStatus.OPEN.value`
abbrev pub is_open : OrderStatus → Bool
is_open pending = false
is_open open_status = true
is_open partially_filled = false
is_open filled = false
is_open cancelled = false
is_open rejected = false

abbrev pub open_order : Option OrderRow → Bool
open_order none = false
open_order (some o) = is_open o.status

unfoldable pub cancel_order : ℕ → M Bool
cancel_order id = do order ← get_order id; pure (open_order order)

-- It refuses whatever it is asked.
unfoldable pub modify_order : ℕ → Option ℤ → Option ℤ → M OrderRow
modify_order id price quantity = raise value_error

unfoldable pub get_order_status : ℕ → M OrderStatus
unfolding get_order
get_order_status id = do order ← get_order id; o ← or_value_error order; pure o.status

-- `Position`
pub record Position : Type 0 where
  pub symbol : ℕ
  pub quantity : ℤ
  pub average_price : ℤ

abbrev position_of : PositionRow → Position
position_of row = record {
  symbol = row.symbol;
  quantity = row.quantity;
  average_price = row.average_price;
}

unfoldable pub get_positions : M (List Position)
unfolding list_positions
get_positions = do rows ← list_positions; pure (map position_of rows)

module _ (market : Market) (moment : ℕ) where
  -- The row with its expiry, where that is over.
  abbrev add_expired :
      PositionRow → Option Contract → List (PositionRow × ℕ) → List (PositionRow × ℕ)
  add_expired row none rest = rest
  add_expired row (some contract) rest =
      if ltb contract.expiry moment then (row, contract.expiry) ∷ rest else rest

  abbrev pub expired_of : List PositionRow → List (PositionRow × ℕ)
  expired_of [] = []
  expired_of (row ∷ rows) = add_expired row (market.resolve_contract row.symbol) (expired_of rows)

  unfoldable pub expired_positions : M (List (PositionRow × ℕ))
  unfolding list_positions
  expired_positions = do rows ← list_positions; pure (expired_of rows)
