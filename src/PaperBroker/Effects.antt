-- ===== src/PaperBroker/Effects.antt =====
-- What the writing methods of `PaperBroker` (option_signal_bot/execution/paper_broker.py) leave in
-- the tables, where they run inside a transaction.
use kh_optionbaz.Prelude.{
  ℕ, ◌<◌, ◌≡◌, arith, true, false, some, ◌++◌, List, [], ◌∷◌, ℤ, pos, ◌+ℤ◌, ◌-ℤ◌, ◌*ℤ◌, ◌<ℤ◌, leb_ℤ,
  if◌then◌else◌, Bool-cases, inl, inr,
}
use kh_optionbaz.OrderBook.{SideWord}
use kh_optionbaz.Fees.{FeeSchedule, rates_known}
use kh_optionbaz.PaperAccount.{allocate_entry_fee}
use kh_optionbaz.PaperStore.{
  Account, PositionRow, TradeRow, OrderRow, Reason, Tables, put_order, save_order, transaction,
  Store, ok, find_position, put_position, without_position, has_trade, manual,
}
use kh_optionbaz.PaperBroker.{
  Call, Contract, apply_buy, apply_sell, execute, reject, rejected_row, filled_row, bought_row,
  remaining_row, known, close_row,
}

-- The share of the entry fees that a sale takes along.
abbrev pub share_of : (ℤ → ℤ → ℤ) → ℤ → PositionRow → ℤ
share_of divide new p = allocate_entry_fee divide p.entry_fees new p.quantity

-- The positions after a sale: the one that is sold goes if nothing of it is left.
abbrev pub left_of : (ℤ → ℤ → ℤ) → ℕ → ℤ → Call → PositionRow → List PositionRow → List PositionRow
left_of divide symbol new c p ps =
    if leb_ℤ (p.quantity -ℤ new) (pos 0)
    then without_position symbol ps
    else put_position (remaining_row symbol p new (share_of divide new p) c) ps

module _ (divide : ℤ → ℤ → ℤ) (fees : FeeSchedule) (symbol : ℕ) (new price fee : ℤ) (c : Call)
    (contract : Contract) where
  -- The tables after a buy.
  abbrev pub bought : Account → Tables → Tables
  bought a t = record t {
    account = some (record a { cash = a.cash -ℤ price *ℤ new *ℤ contract.contract_size -ℤ fee });
    positions =
        put_position
          (bought_row divide fees symbol new price fee c (find_position symbol t.positions))
          t.positions;
  }

  pub apply_buy_effect :
      (s : Store) (a : Account)
      → 0 < s.depth
      → s.working.account ≡ some a
      → pos 0
        <ℤ (bought_row divide fees symbol new price fee c
            (find_position symbol s.working.positions)).quantity
      → apply_buy divide fees symbol new price fee c contract s
        ≡ (ok tt, record s { working = bought a s.working })
  unfolding apply_buy
  apply_buy_effect s a h e q = ground arith

  abbrev pub sale_row : PositionRow → TradeRow
  sale_row p =
      close_row c symbol new p.average_price price
        (known p.entry_fees_known (share_of divide new p)) (known (rates_known fees) fee)
        contract.contract_size p.opened_at c.signal_id manual

  -- The tables after a sale.
  abbrev pub sold : Account → PositionRow → Tables → Tables
  sold a p t = record t {
    account = some (record a { cash = a.cash +ℤ price *ℤ new *ℤ contract.contract_size -ℤ fee });
    positions = left_of divide symbol new c p t.positions;
    trades = t.trades ++ (sale_row p ∷ []);
  }

  pub apply_sell_effect :
      (s : Store) (a : Account) (p : PositionRow)
      → 0 < s.depth
      → s.working.account ≡ some a
      → find_position symbol s.working.positions ≡ some p
      → has_trade c.trade_id s.working.trades ≡ false
      → apply_sell divide fees symbol new price fee c contract s
        ≡ (ok tt, record s { working = sold a p s.working })
  unfolding apply_sell close_row
  apply_sell_effect s a p h e f n = elim (Bool-cases (leb_ℤ (p.quantity -ℤ new) (pos 0))) [
    | inl l ↦ ground arith
    | inr l ↦ ground arith
  ]

-- A connection between transactions.
abbrev pub at_rest : Tables → Store
at_rest t = record { committed = t; working = t; depth = 0 }

abbrev pub with_order : OrderRow → Tables → Tables
with_order row t = record t { orders = put_order row t.orders }

-- A rejected order leaves one row in the table of the orders.
pub reject_effect :
    (symbol : ℕ) (side : SideWord) (quantity : ℤ) (c : Call) (why : Reason) (s : Store)
    → s.depth ≡ 0
    → let row = rejected_row symbol side quantity c why in
      reject symbol side quantity c why s ≡ (ok row, at_rest (with_order row s.working))
unfolding reject
reject_effect symbol side quantity c why s h = ground arith

module _ (divide : ℤ → ℤ → ℤ) (fees : FeeSchedule) (symbol : ℕ) (side : SideWord) (quantity : ℤ)
    (c : Call) (contract : Contract) (avg new fee : ℤ) (s : Store) (a : Account)
    (outside : s.depth ≡ 0) (opened : s.working.account ≡ some a) where
  abbrev pub row_of : OrderRow
  row_of = filled_row symbol side quantity c avg new fee

  pub execute_buy_effect :
      pos 0
        <ℤ (bought_row divide fees symbol new avg fee c
            (find_position symbol s.working.positions)).quantity
      → execute divide fees symbol side true quantity c contract avg new fee s ≡ (
        ok row_of,
        at_rest (with_order row_of (bought divide fees symbol new avg fee c contract a s.working)),
      )
  unfolding execute save_order transaction
  execute_buy_effect q =
      ground (
        arith,
        apply_buy_effect divide fees symbol new avg fee c contract (record s { depth = 1 }) a,
      )

  pub execute_sell_effect :
      (p : PositionRow)
      → find_position symbol s.working.positions ≡ some p
      → has_trade c.trade_id s.working.trades ≡ false
      → execute divide fees symbol side false quantity c contract avg new fee s ≡ (
        ok row_of,
        at_rest (with_order row_of (sold divide fees symbol new avg fee c contract a p s.working)),
      )
  unfolding execute save_order transaction
  execute_sell_effect p f n = ground (
    arith,
    apply_sell_effect divide fees symbol new avg fee c contract (record s { depth = 1 }) a p,
  )
