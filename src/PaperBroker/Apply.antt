-- ===== src/PaperBroker/Apply.antt =====
-- The methods of `PaperBroker` (option_signal_bot/execution/paper_broker.py) that write: rejection,
-- buy, sale, and the execution of an order.
use kh_optionbaz.Prelude.{
  ℕ, Bool, true, Option, none, some, if◌then◌else◌, leb_ℤ, ℤ, pos, ◌+ℤ◌, ◌-ℤ◌, ◌*ℤ◌,
}
use kh_optionbaz.OrderBook.{SideWord}
use kh_optionbaz.Fees.{FeeSchedule, entry_cost, exit_cost, rates_known}
use kh_optionbaz.PaperAccount.{check_affordable, allocate_entry_fee}
use kh_optionbaz.PaperStore.{
  OrderRow, PositionRow, TradeRow, Reason, expiry_settlement, delete_position, no_depth, no_cash,
  manual, M, pure, ◌>>=◌, ◌>>◌, transaction, get_account, update_cash, save_order, get_position,
  upsert_position, record_trade,
}
use package.kh_optionbaz.PaperBroker.Types.{Contract, Call}
use package.kh_optionbaz.PaperBroker.Rows.{
  cash_of, expect, rejected_row, filled_row, bought_row, remaining_row, known, close_row,
}

-- `get_account_balance`: cash, available and buying power are one number, and nothing is blocked.
unfoldable pub get_account_balance : M ℤ
unfolding get_account
get_account_balance = do account ← get_account; pure (cash_of account)

-- `_rejected`
unfoldable pub reject : ℕ → SideWord → ℤ → Call → Reason → M OrderRow
unfolding save_order
reject symbol side quantity c why = do
  save_order (rejected_row symbol side quantity c why)
  pure (rejected_row symbol side quantity c why)

module _ (divide : ℤ → ℤ → ℤ) (fees : FeeSchedule) where
  -- `_apply_buy`
  unfoldable pub apply_buy : ℕ → ℤ → ℤ → ℤ → Call → Contract → M (Unit {0})
  unfolding get_account update_cash get_position upsert_position
  apply_buy symbol new price fee c contract = do
    account ← get_account
    a ← expect account
    update_cash (a.cash -ℤ price *ℤ new *ℤ contract.contract_size -ℤ fee)
    existing ← get_position symbol
    upsert_position (bought_row divide fees symbol new price fee c existing)

  -- `_apply_sell`
  unfoldable pub apply_sell : ℕ → ℤ → ℤ → ℤ → Call → Contract → M (Unit {0})
  unfolding get_account update_cash get_position upsert_position record_trade allocate_entry_fee
  apply_sell symbol sold price fee c contract = do
    position ← get_position symbol
    p ← expect position
    account ← get_account
    a ← expect account
    update_cash (a.cash +ℤ price *ℤ sold *ℤ contract.contract_size -ℤ fee)
    let share = allocate_entry_fee divide p.entry_fees sold p.quantity
    upsert_position (remaining_row symbol p sold share c)
    record_trade (
        close_row c symbol sold p.average_price price (known p.entry_fees_known share)
          (known (rates_known fees) fee) contract.contract_size p.opened_at c.signal_id manual)

  -- The part of `place_order` that writes: cash, position, trade and order in one transaction.
  unfoldable pub execute : ℕ → SideWord → Bool → ℤ → Call → Contract → ℤ → ℤ → ℤ → M OrderRow
  execute symbol side is_buy quantity c contract avg new fee =
      let row = filled_row symbol side quantity c avg new fee in
      transaction (do
        if is_buy
            then apply_buy symbol new avg fee c contract
            else apply_sell symbol new avg fee c contract
        save_order row)
      >> pure row

  unfoldable pub order_fee : Bool → ℤ → ℤ
  unfolding entry_cost exit_cost
  order_fee is_buy notional =
      if is_buy then entry_cost divide fees notional true else exit_cost divide fees notional true

  -- From the fill on: the check of the cash of a buy, and the execution.
  unfoldable pub settle_fill : ℕ → SideWord → Bool → ℤ → Call → Contract → Option ℤ × ℤ → M OrderRow
  settle_fill symbol side is_buy quantity c contract (none, new) =
      reject symbol side quantity c no_depth
  settle_fill symbol side is_buy quantity c contract (some avg, new) =
      let notional = avg *ℤ new *ℤ contract.contract_size in
      let fee = order_fee is_buy notional in
      let run = execute symbol side is_buy quantity c contract avg new fee in
      if leb_ℤ new (pos 0)
      then reject symbol side quantity c no_depth
      else if is_buy
      then (do
        available ← get_account_balance
        if check_affordable (notional +ℤ fee) available
            then run
            else reject symbol side quantity c no_cash)
      else run

  -- The part of `settle_position` that writes.
  unfoldable pub settle_open : ℕ → ℤ → PositionRow → Call → Contract → M TradeRow
  unfolding get_account transaction update_cash delete_position record_trade
  settle_open symbol settlement p c contract =
      let notional = settlement *ℤ p.quantity *ℤ contract.contract_size in
      let fee = exit_cost divide fees notional true in
      let row =
        close_row c symbol p.quantity p.average_price settlement
          (known p.entry_fees_known p.entry_fees) (known (rates_known fees) fee)
          contract.contract_size p.opened_at none expiry_settlement in
      transaction (do
        account ← get_account
        a ← expect account
        update_cash (a.cash +ℤ notional -ℤ fee)
        delete_position symbol
        record_trade row)
      >> pure row
