-- ===== src/PaperStore/Rows.antt =====
-- The rows of the tables in option_signal_bot/storage/paper_trading_store.py, and the enumerations
-- of option_signal_bot/execution/order_executor_interface.py that stand in them.
use kh_optionbaz.Prelude.{ℕ, Bool, Option, List, ℤ, Ratio}
use kh_optionbaz.OrderBook.{SideWord}

pub data OrderStatus : Type 0 where
  pending open_status partially_filled filled cancelled rejected : OrderStatus

-- Which check of `PaperBroker.place_order` turned the order down, for the text in `metadata`.
pub data Reason : Type 0 where
  bad_quantity bad_side not_held no_contract expired no_book no_depth no_cash : Reason

pub data CloseReason : Type 0 where
  manual expiry_settlement : CloseReason

-- paper_account
pub record Account : Type 0 where
  pub cash : ℤ
  pub initial_balance : ℤ
  pub created_at : ℕ
  pub reset_at : Option ℕ

-- paper_orders
pub record OrderRow : Type 0 where
  pub order_id : ℕ
  pub symbol : ℕ
  pub side : SideWord
  pub quantity : ℤ
  pub filled_quantity : ℤ
  pub avg_fill_price : ℤ
  pub status : OrderStatus
  pub fee_paid : ℤ
  pub signal_id : Option ℕ
  pub created_at : ℕ
  pub updated_at : ℕ
  pub reason : Option Reason

-- paper_positions
pub record PositionRow : Type 0 where
  pub symbol : ℕ
  pub quantity : ℤ
  pub average_price : ℤ
  pub opened_at : ℕ
  pub updated_at : ℕ
  pub entry_fees : ℤ
  pub entry_fees_known : Bool

-- paper_trades
pub record TradeRow : Type 0 where
  pub trade_id : ℕ
  pub symbol : ℕ
  pub quantity : ℤ
  pub entry_price : ℤ
  pub exit_price : ℤ
  pub fee_paid : ℤ
  pub entry_fee : Option ℤ
  pub exit_fee : Option ℤ
  pub gross_pnl : Option ℤ
  pub pnl_absolute : ℤ
  pub pnl_pct : Ratio
  pub return_on_cost_pct : Option Ratio
  pub contract_size : Option ℤ
  pub opened_at : ℕ
  pub closed_at : ℕ
  pub signal_id : Option ℕ
  pub close_reason : CloseReason

pub record Tables : Type 0 where
  pub account : Option Account
  pub orders : List OrderRow
  pub positions : List PositionRow
  pub trades : List TradeRow
