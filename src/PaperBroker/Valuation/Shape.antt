-- ===== src/PaperBroker/Valuation/Shape.antt =====
-- What `_value_one` of option_signal_bot/execution/paper_broker.py keeps of a position.
use kh_optionbaz.Prelude.{
  ℕ, ◌≡◌, refl, sym, ap, ◌∙◌, ◌+ℤ◌, ◌*ℤ◌, true, Option, none, some, inl, inr, Bool-cases,
  Option-cases, ltb, ltb_ℤ, leb_ℤ, ℤ, pos,
}
use kh_optionbaz.OrderBook.{OrderBook}
use kh_optionbaz.PaperStore.{PositionRow}
use kh_optionbaz.PaperAccount.{PositionValuation, is_priced}
use kh_optionbaz.PaperAccount.Reconcile.{IsValued, spent_on}
use kh_optionbaz.PaperBroker.{Market, listed}
use kh_optionbaz.PaperBroker.Ledger.{basis_of, size_of, IsSized, size_of-IsSized, IsSized-listed}
use kh_optionbaz.PaperBroker.Valuation.{value_fill, value_one}
use kh_optionbaz.PaperBroker.Valuation.Priced.{IsPriced, sell_total}

module _ (divide : ℤ → ℤ → ℤ) (market : Market) (size : ℕ → ℤ) (row : PositionRow) where
  -- Where there is a price, the cost of the position is kept, and the price stands where the status
  -- says so.
  abbrev pub IsShaped : PositionValuation → Type 0
  IsShaped v =
      IsPriced v → (spent_on v ≡ basis_of size row) × (row.entry_fees_known ≡ true → IsValued v)

  value_fill-IsShaped :
      (book : OrderBook) (fill : Option ℤ × ℤ)
      → size_of market row.symbol ≡ size row.symbol
      → IsShaped (value_fill row (market.resolve_contract row.symbol) book fill)
  unfolding value_fill is_priced
  value_fill-IsShaped book (none, n) same = λ t. absurd cc
  value_fill-IsShaped book (some mark, n) same = elim (Bool-cases (leb_ℤ n (pos 0))) [
    | inl b ↦ rw b (λ t. absurd cc)
    | inr b ↦ elim (Bool-cases (ltb_ℤ n row.quantity)) [
      | inl d ↦ rw (b, d) (λ t. absurd cc)
      | inr d ↦
          rw (b, d)
            (λ t. (
              ap (λ k. row.average_price *ℤ row.quantity *ℤ k +ℤ row.entry_fees) same,
              λ k. record { mark = mark; marked = refl; priced = refl; fees_known = k },
            ))
    ]
  ]

  abbrev Shaped : Option PositionValuation → Type 0
  Shaped o = (v : PositionValuation) × (o ≡ some v) × IsShaped v

  pub value_one-IsShaped :
      (today : ℕ)
      → IsSized size row.symbol (market.resolve_contract row.symbol)
      → Shaped (value_one divide market row today)
  unfolding value_one is_priced
  value_one-IsShaped today sized =
      elim (Option-cases (listed (market.resolve_contract row.symbol))) [
        | inl n ↦ rw (n, value_one) (_, refl, λ t. absurd cc)
        | inr ((contract, ins_code), l) ↦ elim (Bool-cases (ltb contract.expiry today)) [
          | inl z ↦ rw (l, z, value_one) (_, refl, λ t. absurd cc)
          | inr z ↦ elim (Option-cases (market.try_get_order_book ins_code row.symbol)) [
            | inl n ↦ rw (l, z, n, value_one) (_, refl, λ t. absurd cc)
            | inr (book, b) ↦
                let (fill, e) = sell_total divide book row.quantity in
                let own =
                  IsSized-listed (size_of market) row.symbol (market.resolve_contract row.symbol)
                    (size_of-IsSized market row.symbol) l in
                let wanted =
                  IsSized-listed size row.symbol (market.resolve_contract row.symbol) sized l in
                rw (l, z, b, e, value_one)
                  (_, refl, value_fill-IsShaped book fill (sym own ∙ wanted))
          ]
        ]
      ]
