-- ===== src/PaperBroker/Ledger/Placed.antt =====
-- `place_order` of option_signal_bot/execution/paper_broker.py keeps the books.
use kh_optionbaz.Prelude.{
  List, [], ◌∷◌, ◌==◌, ◌≢◌, ◌&&◌, leb_ℤ, All, All-append, ℕ, ◌≡◌, refl, ap, ◌∙◌, arith, Bool, true,
  false, some, inl, inr, Bool-cases, Option-cases, ℤ, pos, ◌≤ℤ◌, ◌<ℤ◌,
}
use kh_optionbaz.OrderBook.{SideWord}
use kh_optionbaz.OrderBook.Fill.{fill_price-le}
use kh_optionbaz.Fees.{FeeSchedule, rates_known}
use kh_optionbaz.PaperStore.{
  open_status, without_order, Account, OrderRow, PositionRow, Tables, Store, Result, find_position,
  has_trade,
}
use kh_optionbaz.PaperStore.Transaction.{IsSettled}
use kh_optionbaz.PaperBroker.{filled_row, Market, Call, order_fee, place_order, execute}
use kh_optionbaz.PaperBroker.Reject.{Fill, Ends, run_of, notional_of, place_order-Ends}
use kh_optionbaz.PaperBroker.Effects.{
  at_rest, with_order, reject_effect, execute_buy_effect, execute_sell_effect,
}
use kh_optionbaz.PaperBroker.Ledger.{IsLedger, size_of, IsSized, size_of-IsSized, IsSized-listed}
use kh_optionbaz.PaperBroker.Ledger.Positions.{find-All}
use kh_optionbaz.PaperBroker.Ledger.Orders.{IsMerged, bought-IsLedger, bought_quantity}
use kh_optionbaz.PaperBroker.Ledger.Sales.{sold-IsLedger}

-- The books hold, in a store at rest, for an account that began with `initial`.
pub record IsKept (size : ℕ → ℤ) (initial : ℤ) (s : Store) : Type 0 where
  pub settled : IsSettled s
  pub account : Account
  pub ledger : IsLedger size account s.working
  pub began : account.initial_balance ≡ initial

All-without_order :
    (id : ℕ) (os : List OrderRow)
    → All (λ o. o.status ≢ open_status) os
    → All (λ o. o.status ≢ open_status) (without_order id os)
All-without_order id [] h = tt
All-without_order id (o ∷ os) h = elim (Bool-cases (o.order_id == id)) [
  | inl b ↦ rw b (All-without_order id os h.1)
  | inr b ↦ rw b (h.0, All-without_order id os h.1)
]

-- An order that has run is filled, wholly or in part.
filled_row_done :
    (symbol : ℕ) (side : SideWord) (quantity : ℤ) (c : Call) (avg new fee : ℤ)
    → (filled_row symbol side quantity c avg new fee).status ≢ open_status
filled_row_done symbol side quantity c avg new fee =
    elim (Bool-cases (leb_ℤ quantity new && leb_ℤ new quantity)) [
      | inl b ↦ rw b (λ e. cc)
      | inr b ↦ rw b (λ e. cc)
    ]

IsKept-at_rest :
    (size : ℕ → ℤ) (a : Account) (t : Tables) (row : OrderRow)
    → row.status ≢ open_status
    → IsLedger size a t
    → IsKept size a.initial_balance (at_rest (with_order row t))
IsKept-at_rest size a t row n l = record {
  settled = record { outside = refl; clean = refl };
  account = a;
  ledger = record {
    opened = l.opened;
    done =
        All-append _ (without_order row.order_id t.orders) _ (All-without_order _ _ l.done) (n, tt);
    held = l.held;
    unique = l.unique;
    fees_known = l.fees_known;
    costed = l.costed;
    balanced = l.balanced;
  };
  began = refl;
}

module _ (divide : ℤ → ℤ → ℤ) (fees : FeeSchedule) (market : Market) (symbol : ℕ) (side : SideWord)
    (quantity : ℤ) (c : Call) (s : Store) (rates : rates_known fees ≡ true) where
  -- A buy that adds to a position is divided without remainder.
  abbrev pub IsExactOrder : Type 0
  IsExactOrder =
      (f : Fill divide fees market symbol side quantity c s)
      → f.is_buy ≡ true
      → IsMerged divide (find_position symbol s.working.positions) f.avg f.new

  module _ (size : ℕ → ℤ) (sized : IsSized size symbol (market.resolve_contract symbol)) where
    module _ (a : Account) (f : Fill divide fees market symbol side quantity c s)
        (outside : s.depth ≡ 0) (l : IsLedger size a s.working) where
      abbrev fee_of : ℤ
      fee_of =
          order_fee divide fees f.is_buy
            (notional_of divide fees market symbol side quantity c s f.contract f.avg f.new)

      abbrev run_as : Bool → Result OrderRow × Store
      run_as is_buy =
          execute divide fees symbol side is_buy quantity c f.contract f.avg f.new fee_of s

      contract_sized : f.contract.contract_size ≡ size symbol
      contract_sized = IsSized-listed size symbol (market.resolve_contract symbol) sized f.listed_as

      buy-IsKept :
          f.is_buy ≡ true
          → IsMerged divide (find_position symbol s.working.positions) f.avg f.new
          → IsKept size a.initial_balance (run_of divide fees market symbol side quantity c s f).1
      buy-IsKept b exact =
          let many =
            bought_quantity divide fees size symbol f.new f.avg fee_of c
              (find_position symbol s.working.positions) f.some_filled
              (λ p e. find-All (λ p. pos 0 <ℤ p.quantity) symbol s.working.positions l.held e) in
          let ran =
            ap run_as b
            ∙ execute_buy_effect divide fees symbol side quantity c f.contract f.avg f.new fee_of s
                a outside l.opened many in
          rw ran (
            IsKept-at_rest size _ _ _ (filled_row_done symbol side quantity c f.avg f.new fee_of) (
              bought-IsLedger divide fees size symbol f.new f.avg fee_of c f.contract a s.working l
                rates contract_sized f.some_filled exact))

      sale-IsKept :
          (p : PositionRow)
          → f.is_buy ≡ false
          → find_position symbol s.working.positions ≡ some p
          → f.new ≤ℤ p.quantity
          → has_trade c.trade_id s.working.trades ≡ false
          → IsKept size a.initial_balance (run_of divide fees market symbol side quantity c s f).1
      sale-IsKept p b e k fresh =
          let ran =
            ap run_as b
            ∙ execute_sell_effect divide fees symbol side quantity c f.contract f.avg f.new fee_of s
                a outside l.opened p e fresh in
          rw ran (
            IsKept-at_rest size _ _ _ (filled_row_done symbol side quantity c f.avg f.new fee_of) (
              sold-IsLedger divide fees size symbol f.new f.avg fee_of c f.contract a s.working p l
                rates contract_sized e k))

    -- A sale that passes the checks has a position that is large enough.
    sold_from :
        (f : Fill divide fees market symbol side quantity c s)
        → f.is_buy ≡ false
        → (p : PositionRow) × (find_position symbol s.working.positions ≡ some p)
          × (f.new ≤ℤ p.quantity)
    sold_from f b =
        let enough = f.held b in
        let little =
          fill_price-le divide f.book side quantity f.new (some f.avg) (omega (arith, f.wanted))
            f.filled in
        elim (Option-cases (find_position symbol s.working.positions)) [
          | inl n ↦ absurd (omega (arith, f.wanted, rw n at enough))
          | inr (p, e) ↦ (p, e, omega (arith, little, rw e at enough))
        ]

    Fill-IsKept :
        (a : Account) (f : Fill divide fees market symbol side quantity c s)
        → s.depth ≡ 0
        → IsLedger size a s.working
        → IsExactOrder
        → has_trade c.trade_id s.working.trades ≡ false
        → IsKept size a.initial_balance (run_of divide fees market symbol side quantity c s f).1
    Fill-IsKept a f outside l exact fresh = elim (Bool-cases f.is_buy) [
      | inl b ↦ buy-IsKept a f outside l b (exact f b)
      | inr b ↦ let (p, e, k) = sold_from f b in sale-IsKept a f outside l p b e k fresh
    ]

    Ends-IsKept :
        (initial : ℤ) (r : Result OrderRow × Store)
        → Ends divide fees market symbol side quantity c s r
        → IsKept size initial s
        → IsExactOrder
        → has_trade c.trade_id s.working.trades ≡ false
        → IsKept size initial r.1
    Ends-IsKept initial r (inl (why, e)) k exact fresh =
        rw (e, reject_effect symbol side quantity c why s k.settled.outside, ← k.began)
          (IsKept-at_rest size k.account s.working _ (λ e. cc) k.ledger)
    Ends-IsKept initial r (inr (f, e)) k exact fresh =
        rw (e, ← k.began) (Fill-IsKept k.account f k.settled.outside k.ledger exact fresh)

    -- The same for any sizes, of which the order only reads the one of its symbol.
    pub place_order-IsKept_sized :
        (initial : ℤ)
        → IsKept size initial s
        → IsExactOrder
        → has_trade c.trade_id s.working.trades ≡ false
        → IsKept size initial (place_order divide fees market symbol side quantity c s).1
    place_order-IsKept_sized initial =
        Ends-IsKept initial _ (place_order-Ends divide fees market symbol side quantity c s)

  -- Where the rates are known, an order keeps the books, however it ends: all that is in the
  -- account has been paid in, paid out or earned once. The store is left at rest. (The identifier
  -- of a trade is fresh, and the average price of an addition is divided without remainder.)
  pub place_order-IsKept :
      (initial : ℤ)
      → IsKept (size_of market) initial s
      → IsExactOrder
      → has_trade c.trade_id s.working.trades ≡ false
      → IsKept (size_of market) initial (place_order divide fees market symbol side quantity c s).1
  place_order-IsKept = place_order-IsKept_sized (size_of market) (size_of-IsSized market symbol)
