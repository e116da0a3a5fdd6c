-- ===== src/PaperBroker/Rows.antt =====
-- The rows that `PaperBroker` of option_signal_bot/execution/paper_broker.py writes.
use kh_optionbaz.Prelude.{
  ℕ, Bool, true, false, ◌&&◌, Option, none, some, if◌then◌else◌, leb_ℤ, ℤ, pos, ◌+ℤ◌, ◌-ℤ◌, ◌*ℤ◌,
}
use kh_optionbaz.OrderBook.{SideWord, buy, sell, buy_fa, sell_fa, other}
use kh_optionbaz.Fees.{FeeSchedule, rates_known}
use kh_optionbaz.PaperAccount.{return_on_cost_pct, or_zero}
use kh_optionbaz.PaperStore.{
  Account, OrderRow, partially_filled, filled, rejected, Reason, PositionRow, TradeRow, CloseReason,
  M, pure, raise, type_error,
}
use package.kh_optionbaz.PaperBroker.Types.{Call, net_result, basis, ratio_or_zero}

-- Only `buy` and `sell` are sides of an order; `true` is a buy.
unfoldable pub order_side : SideWord → Option Bool
order_side buy = some true
order_side sell = some false
order_side buy_fa = none
order_side sell_fa = none
order_side other = none

abbrev pub held_of : Option PositionRow → ℤ
held_of none = pos 0
held_of (some p) = p.quantity

abbrev pub cash_of : Option Account → ℤ
cash_of none = pos 0
cash_of (some a) = a.cash

abbrev pub expect : {A : Type 0} → Option A → M A
expect none = raise type_error
expect (some a) = pure a

-- The row that `_rejected` saves and returns.
abbrev pub rejected_row : ℕ → SideWord → ℤ → Call → Reason → OrderRow
rejected_row symbol side quantity c why = record {
  order_id = c.order_id;
  symbol = symbol;
  side = side;
  quantity = quantity;
  filled_quantity = pos 0;
  avg_fill_price = pos 0;
  status = rejected;
  fee_paid = pos 0;
  signal_id = none;
  created_at = c.now;
  updated_at = c.now;
  reason = some why;
}

-- The row of an order that is filled, wholly or in part.
abbrev pub filled_row : ℕ → SideWord → ℤ → Call → ℤ → ℤ → ℤ → OrderRow
filled_row symbol side quantity c avg filled_quantity fee = record {
  order_id = c.order_id;
  symbol = symbol;
  side = side;
  quantity = quantity;
  filled_quantity = filled_quantity;
  avg_fill_price = avg;
  status =
      if leb_ℤ quantity filled_quantity && leb_ℤ filled_quantity quantity
      then filled
      else partially_filled;
  fee_paid = fee;
  signal_id = c.signal_id;
  created_at = c.now;
  updated_at = c.now;
  reason = none;
}

-- The row of `_record_close`. A cost that is not known leaves the net and its percentage unknown,
-- and `pnl_absolute` then holds the gross less the costs that are recorded.
unfoldable pub close_row :
    Call → ℕ → ℤ → ℤ → ℤ → Option ℤ → Option ℤ → ℤ → ℕ → Option ℕ → CloseReason → TradeRow
unfolding return_on_cost_pct
close_row c symbol quantity entry_price exit_price entry_fee exit_fee contract_size opened_at signal
      why =
    let gross = (exit_price -ℤ entry_price) *ℤ quantity *ℤ contract_size in
    let recorded = or_zero entry_fee +ℤ or_zero exit_fee in
    let net = net_result gross recorded entry_fee exit_fee in
    let pct = return_on_cost_pct net (basis (entry_price *ℤ quantity *ℤ contract_size) entry_fee) in
    record {
      trade_id = c.trade_id;
      symbol = symbol;
      quantity = quantity;
      entry_price = entry_price;
      exit_price = exit_price;
      fee_paid = recorded;
      entry_fee = entry_fee;
      exit_fee = exit_fee;
      gross_pnl = some gross;
      pnl_absolute = gross -ℤ recorded;
      pnl_pct = ratio_or_zero pct;
      return_on_cost_pct = pct;
      contract_size = some contract_size;
      opened_at = opened_at;
      closed_at = c.now;
      signal_id = signal;
      close_reason = why;
    }

-- The average price after `new` more contracts at `price`.
unfoldable pub merged_price : (ℤ → ℤ → ℤ) → PositionRow → ℤ → ℤ → ℤ
merged_price divide p price new =
    divide (p.quantity *ℤ p.average_price +ℤ new *ℤ price) (p.quantity +ℤ new)

abbrev pub bought_row :
    (ℤ → ℤ → ℤ) → FeeSchedule → ℕ → ℤ → ℤ → ℤ → Call → Option PositionRow → PositionRow
bought_row divide fees symbol new price fee c none = record {
  symbol = symbol;
  quantity = new;
  average_price = price;
  opened_at = c.now;
  updated_at = c.stamp;
  entry_fees = fee;
  entry_fees_known = rates_known fees;
}
bought_row divide fees symbol new price fee c (some p) = record {
  symbol = symbol;
  quantity = p.quantity +ℤ new;
  average_price = merged_price divide p price new;
  opened_at = p.opened_at;
  updated_at = c.stamp;
  entry_fees = p.entry_fees +ℤ fee;
  entry_fees_known = p.entry_fees_known && rates_known fees;
}

abbrev pub remaining_row : ℕ → PositionRow → ℤ → ℤ → Call → PositionRow
remaining_row symbol p sold share c = record {
  symbol = symbol;
  quantity = p.quantity -ℤ sold;
  average_price = p.average_price;
  opened_at = p.opened_at;
  updated_at = c.stamp;
  entry_fees = p.entry_fees -ℤ share;
  entry_fees_known = p.entry_fees_known;
}

abbrev pub known : Bool → ℤ → Option ℤ
known b x = if b then some x else none
