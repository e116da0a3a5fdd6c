-- ===== src/PaperBroker/Ledger/Settled.antt =====
-- `settle_position` of option_signal_bot/execution/paper_broker.py keeps the books.
use kh_optionbaz.Prelude.{
  ℕ, ◌≡◌, refl, sym, ap, ◌∙◌, arith, true, false, Option, none, some, [], ◌∷◌, ◌++◌, inl, inr,
  All-append, ℤ, ◌+ℤ◌, ◌-ℤ◌, ◌*ℤ◌, sum_of-append, int_laws, parts_eq,
}
use kh_optionbaz.Fees.{FeeSchedule, exit_cost, rates_known}
use kh_optionbaz.PaperStore.{
  Account, PositionRow, TradeRow, Tables, Store, ok, find_position, without_position, has_trade,
  expiry_settlement,
}
use kh_optionbaz.PaperBroker.{
  Contract, Market, Call, known, close_row, settle_position, settle_open,
}
use kh_optionbaz.PaperBroker.Effects.{at_rest}
use kh_optionbaz.PaperBroker.Expiry.{Settlement, settle_run, settle_position_ends}
use kh_optionbaz.PaperBroker.Ledger.{
  earned, IsCosted, IsLedger, size_of, IsSized, size_of-IsSized, IsSized-resolved,
}
use kh_optionbaz.PaperBroker.Ledger.Positions.{
  find-symbol, find-All, basis-without, All-without, without-IsUnique,
}
use kh_optionbaz.PaperBroker.Ledger.Sales.{gross_of_sale}
use kh_optionbaz.PaperBroker.Ledger.Placed.{IsKept}

module _ (divide : ℤ → ℤ → ℤ) (fees : FeeSchedule) (symbol : ℕ) (price : ℤ) (p : PositionRow)
    (c : Call) (contract : Contract) where
  abbrev fee_of : ℤ
  fee_of = exit_cost divide fees (price *ℤ p.quantity *ℤ contract.contract_size) true

  abbrev row_of : TradeRow
  row_of =
      close_row c symbol p.quantity p.average_price price (known p.entry_fees_known p.entry_fees)
        (known (rates_known fees) fee_of) contract.contract_size p.opened_at none expiry_settlement

  abbrev settled_account : Account → Account
  settled_account a = record a {
    cash = a.cash +ℤ price *ℤ p.quantity *ℤ contract.contract_size -ℤ fee_of;
  }

  -- The tables after a settlement.
  abbrev settled_tables : Account → Tables → Tables
  settled_tables a t = record t {
    account = some (settled_account a);
    positions = without_position symbol t.positions;
    trades = t.trades ++ (row_of ∷ []);
  }

  settle_open_effect :
      (s : Store) (a : Account)
      → s.depth ≡ 0
      → s.working.account ≡ some a
      → has_trade c.trade_id s.working.trades ≡ false
      → settle_open divide fees symbol price p c contract s
        ≡ (ok row_of, at_rest (settled_tables a s.working))
  unfolding settle_open close_row
  settle_open_effect s a h e n = ground arith

  row-IsCosted : p.entry_fees_known ≡ true → rates_known fees ≡ true → IsCosted row_of
  unfolding close_row
  row-IsCosted k r = record { entry_known = ground arith; exit_known = ground arith }

  earned-row :
      p.entry_fees_known ≡ true
      → rates_known fees ≡ true
      → earned row_of
        ≡ price *ℤ p.quantity *ℤ contract.contract_size
          -ℤ p.average_price *ℤ p.quantity *ℤ contract.contract_size
          -ℤ p.entry_fees
          -ℤ fee_of
  unfolding close_row
  earned-row k r =
      rw (k, r, gross_of_sale price p.average_price p.quantity contract.contract_size)
        (omega int_laws)

  settled-IsLedger :
      (size : ℕ → ℤ) (a : Account) (t : Tables)
      → IsLedger size a t
      → rates_known fees ≡ true
      → contract.contract_size ≡ size symbol
      → find_position symbol t.positions ≡ some p
      → IsLedger size (settled_account a) (settled_tables a t)
  settled-IsLedger size a t l rates sized e =
      let fee_known = find-All (λ p. p.entry_fees_known ≡ true) symbol t.positions l.fees_known e in
      record {
        opened = refl;
        done = l.done;
        held = All-without _ symbol t.positions l.held;
        unique = without-IsUnique symbol t.positions l.unique;
        fees_known = All-without _ symbol t.positions l.fees_known;
        costed = All-append IsCosted t.trades _ l.costed (row-IsCosted fee_known rates, tt);
        balanced = rw (sum_of-append earned t.trades (row_of ∷ [])) (
            omega (
              int_laws,
              parts_eq (basis-without size symbol t.positions p l.unique e),
              parts_eq l.balanced,
              parts_eq (earned-row fee_known rates),
              parts_eq (
                  ap (λ (k : ℤ). p.average_price *ℤ p.quantity *ℤ k)
                    (sized ∙ ap size (sym (find-symbol symbol t.positions e)))),
            ));
      }

module _ (divide : ℤ → ℤ → ℤ) (fees : FeeSchedule) (market : Market) (symbol : ℕ) (price : Option ℤ)
    (c : Call) (s : Store) (rates : rates_known fees ≡ true) where
  module _ (size : ℕ → ℤ) (sized : IsSized size symbol (market.resolve_contract symbol)) where
    Settlement-IsKept :
        (initial : ℤ) (f : Settlement divide fees market symbol c s price)
        → IsKept size initial s
        → has_trade c.trade_id s.working.trades ≡ false
        → IsKept size initial (settle_run divide fees market symbol c s f).1
    Settlement-IsKept initial f k fresh =
        rw
          (settle_open_effect divide fees symbol f.value f.position c f.contract s k.account
            k.settled.outside k.ledger.opened fresh)
          record {
            settled = record { outside = refl; clean = refl };
            account = settled_account divide fees symbol f.value f.position c f.contract k.account;
            ledger =
                settled-IsLedger divide fees symbol f.value f.position c f.contract size k.account
                  s.working k.ledger rates
                  (IsSized-resolved size symbol (market.resolve_contract symbol) sized f.resolved)
                  f.found;
            began = k.began;
          }

    pub settle_position-IsKept_sized :
        (initial : ℤ)
        → IsKept size initial s
        → has_trade c.trade_id s.working.trades ≡ false
        → IsKept size initial (settle_position divide fees market symbol price c s).1
    settle_position-IsKept_sized initial k fresh =
        elim (settle_position_ends divide fees market symbol c s price) [
          | inl e ↦ rw e k
          | inr (f, e) ↦ rw e (Settlement-IsKept initial f k fresh)
        ]

  -- Where the rates are known, a settlement keeps the books, whether it raises or closes the
  -- position: its entry fees and its exit fee go into the trade once. The store is left at rest.
  -- (The identifier of a trade is fresh.)
  pub settle_position-IsKept :
      (initial : ℤ)
      → IsKept (size_of market) initial s
      → has_trade c.trade_id s.working.trades ≡ false
      → IsKept (size_of market) initial (settle_position divide fees market symbol price c s).1
  settle_position-IsKept =
      settle_position-IsKept_sized (size_of market) (size_of-IsSized market symbol)
