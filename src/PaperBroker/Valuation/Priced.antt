-- ===== src/PaperBroker/Valuation/Priced.antt =====
-- When a position of the paper account has a price (`_value_one` of
-- option_signal_bot/execution/paper_broker.py).
use mathlib.Core.Path.{subst}
use mathlib.Core.Option.{some-injective}
use kh_optionbaz.Prelude.{
  ℕ, ◌≤◌, ◌≡◌, ◌≢◌, ◌↔◌, ◌⊎◌, ◌+◌, refl, ap, sym, ◌∙◌, negsuc, pos_part, neg_part, arith, true,
  false, Option, none, some, inl, inr, Bool-cases, Option-cases, ℤ, pos, ◌≤ℤ◌, ◌<ℤ◌, ltb, leb_ℤ,
  min_ℤ, min_ℤ_bounds, max_ℤ, max_ℤ_bounds, parts_eq,
}
use kh_optionbaz.OrderBook.{OrderBook, sell, fill_price, real_depth, real_sum, fill_levels}
use kh_optionbaz.OrderBook.Fill.{fill_price_filled, real_sum_nonneg}
use kh_optionbaz.PaperStore.{PositionRow}
use kh_optionbaz.PaperAccount.{PositionValuation, is_priced}
use kh_optionbaz.PaperBroker.{Contract, Market, listed}
use kh_optionbaz.PaperBroker.Valuation.{value_fill, value_one}

-- The market buys the whole position today: the contract is listed and not past its expiry, its
-- book is there, and the real bids hold the quantity.
pub record IsSaleable (market : Market) (row : PositionRow) (today : ℕ) : Type 0 where
  pub contract : Contract
  pub ins_code : ℕ
  pub book : OrderBook
  pub listed_as : listed (market.resolve_contract row.symbol) ≡ some (contract, ins_code)
  pub alive : today ≤ contract.expiry
  pub booked : market.try_get_order_book ins_code row.symbol ≡ some book
  pub deep : row.quantity ≤ℤ real_sum book.bids

abbrev pub IsPriced : PositionValuation → Type 0
IsPriced v = is_priced v.status ≡ true

nonzero : (n : ℤ) → ¬ (n ≡ pos 0) → pos_part n + neg_part n ≢ 0
nonzero (pos n) h e = h (ap pos (omega arith))
nonzero (negsuc n) h e = omega arith

filled_bounds :
    (q d n : ℤ)
    → pos 0 <ℤ q
    → pos 0 ≤ℤ d
    → n ≡ max_ℤ (pos 0) (min_ℤ q d)
    → (n ≤ℤ q) × (pos 0 ≤ℤ n) × (n ≤ℤ d) × ((q ≤ℤ n) ⊎ (d ≤ℤ n))
filled_bounds q d n h k e =
    let low = min_ℤ_bounds q d in
    let high = max_ℤ_bounds (pos 0) (min_ℤ q d) in
    rw e (omega arith, omega arith, omega arith, omega arith)

value_fill_iff :
    (row : PositionRow) (contract : Option Contract) (book : OrderBook) (mark : Option ℤ) (n d : ℤ)
    → pos 0 <ℤ row.quantity
    → pos 0 ≤ℤ d
    → (n ≡ max_ℤ (pos 0) (min_ℤ row.quantity d)) × ((mark ≡ none) ↔ (n ≡ pos 0))
    → IsPriced (value_fill row contract book (mark, n)) ↔ (row.quantity ≤ℤ d)
unfolding value_fill is_priced
value_fill_iff row contract book none n d q h k =
    let (a, b, c, e) = filled_bounds row.quantity d n q h k.0 in
    let z = parts_eq (k.1.0 refl) in ((λ f. cc), λ f. absurd (omega arith))
value_fill_iff row contract book (some mark) n d q h k =
    let bounds = filled_bounds row.quantity d n q h k.0 in
    let positive : ¬ (n ≡ pos 0) = λ z. cc (k.1.1 z) in ground (arith, bounds, nonzero n positive)

pub sell_total :
    (divide : ℤ → ℤ → ℤ) (book : OrderBook) (quantity : ℤ)
    → (fill : Option ℤ × ℤ) × (fill_price divide book sell quantity ≡ some fill)
unfolding fill_price
sell_total divide book quantity = elim (Bool-cases (leb_ℤ quantity (pos 0))) [
  | inl z ↦ ((none, pos 0), rw z)
  | inr z ↦ (fill_levels divide quantity book.bids, rw z)
]

same_listing :
    (market : Market) (row : PositionRow) (today : ℕ) (contract : Contract) (ins_code : ℕ)
    → listed (market.resolve_contract row.symbol) ≡ some (contract, ins_code)
    → (s : IsSaleable market row today) → (s.contract ≡ contract) × (s.ins_code ≡ ins_code)
same_listing market row today contract ins_code e s =
    let same = some-injective _ _ (sym s.listed_as ∙ e) in
    (ap (λ (p : Contract × ℕ). p.0) same, ap (λ (p : Contract × ℕ). p.1) same)

module _ (divide : ℤ → ℤ → ℤ) (market : Market) (row : PositionRow) (today : ℕ) where
  abbrev Answer : Option PositionValuation → Type 0
  Answer o = (v : PositionValuation) × (o ≡ some v) × (IsPriced v ↔ IsSaleable market row today)

  unpriced :
      (v : PositionValuation)
      → is_priced v.status ≡ false
      → (IsSaleable market row today → ⊥)
      → Answer (some v)
  unpriced v f n = (v, refl, (λ t. absurd (cc (sym f ∙ t)), λ s. absurd (n s)))

  same_book :
      (contract : Contract) (ins_code : ℕ) (book : OrderBook)
      → listed (market.resolve_contract row.symbol) ≡ some (contract, ins_code)
      → market.try_get_order_book ins_code row.symbol ≡ some book
      → IsSaleable market row today
      → row.quantity ≤ℤ real_sum book.bids
  same_book contract ins_code book l b s =
      let (_, code) = same_listing market row today contract ins_code l s in
      let same : s.book ≡ book = some-injective _ _ (sym s.booked ∙ rw code b) in
      subst (λ (k : OrderBook). row.quantity ≤ℤ real_sum k.bids) same s.deep

  book-Answer :
      (contract : Contract) (ins_code : ℕ) (book : OrderBook)
      → pos 0 <ℤ row.quantity
      → listed (market.resolve_contract row.symbol) ≡ some (contract, ins_code)
      → today ≤ contract.expiry
      → market.try_get_order_book ins_code row.symbol ≡ some book
      → (fill : Option ℤ × ℤ) → fill_price divide book sell row.quantity ≡ some fill
      → Answer (some (value_fill row (market.resolve_contract row.symbol) book fill))
  unfolding real_depth
  book-Answer contract ins_code book q l a b (mark, n) e =
      let filled =
        fill_price_filled divide book sell row.quantity (real_sum book.bids) mark n e refl in
      let iff =
        value_fill_iff row (market.resolve_contract row.symbol) book mark n (real_sum book.bids) q
          (real_sum_nonneg book.bids) filled in
      (
        value_fill row (market.resolve_contract row.symbol) book (mark, n),
        refl,
        (
          λ t. record {
            contract = contract;
            ins_code = ins_code;
            book = book;
            listed_as = l;
            alive = a;
            booked = b;
            deep = iff.0 t;
          },
          λ s. iff.1 (same_book contract ins_code book l b s),
        ),
      )

  -- A position that is held is always valued, and it has a price exactly when the market buys all
  -- of it today: its contract is listed and not past its expiry, its book is there, and the real
  -- bids hold its quantity.
  pub value_one-IsPriced_iff :
      pos 0 <ℤ row.quantity
      → (v : PositionValuation) × (value_one divide market row today ≡ some v)
        × (IsPriced v ↔ IsSaleable market row today)
  unfolding value_one is_priced
  value_one-IsPriced_iff q = elim (Option-cases (listed (market.resolve_contract row.symbol))) [
    | inl n ↦ rw (n, value_one) (unpriced _ refl (λ s. cc (sym s.listed_as ∙ n)))
    | inr ((contract, ins_code), l) ↦ elim (Bool-cases (ltb contract.expiry today)) [
      | inl z ↦
          rw (l, z, value_one)
            (unpriced _ refl (λ s.
              let (same, _) = same_listing market row today contract ins_code l s in
              let alive : today ≤ contract.expiry =
                subst (λ (k : Contract). today ≤ k.expiry) same s.alive in
              absurd (ground arith)))
      | inr z ↦
          let alive : today ≤ contract.expiry = ground arith in
          elim (Option-cases (market.try_get_order_book ins_code row.symbol)) [
            | inl n ↦
                rw (l, z, n, value_one)
                  (unpriced _ refl (λ s.
                    let (_, code) = same_listing market row today contract ins_code l s in
                    let booked = rw code at s.booked in cc (sym n ∙ booked)))
            | inr (book, b) ↦
                let (fill, e) = sell_total divide book row.quantity in
                rw (l, z, b, e, value_one) (book-Answer contract ins_code book q l alive b fill e)
          ]
    ]
  ]
