-- ===== src/PaperBroker/Reject.antt =====
-- The two ways in which `place_order` of option_signal_bot/execution/paper_broker.py ends: the order
-- is rejected, or it passes every check and is executed.
use kh_optionbaz.Prelude.{
  ℕ, ◌≤◌, ◌≡◌, ◌≢◌, ◌⊎◌, refl, arith, Bool, true, false, Option, none, some, inl, inr, Bool-cases,
  Option-cases, ltb, ltb_ℤ, leb_ℤ, leb_ℤ→<ℤ, leb_ℤ→≤ℤ, ℤ, pos, ◌+ℤ◌, ◌*ℤ◌, ◌≤ℤ◌, ◌<ℤ◌,
}
use kh_optionbaz.OrderBook.{OrderBook, SideWord, buy, sell, buy_fa, sell_fa, other, fill_price}
use kh_optionbaz.Fees.{FeeSchedule}
use kh_optionbaz.PaperAccount.{check_affordable, reconciliation_tolerance}
use kh_optionbaz.PaperStore.{
  Store, Reason, no_depth, no_cash, expired, no_book, no_contract, not_held, bad_side, bad_quantity,
  find_position, get_position, OrderRow, Result,
}
use kh_optionbaz.PaperBroker.{
  Contract, Market, Call, held_of, cash_of, order_side, listed, order_fee, reject, execute,
  settle_fill, get_account_balance, find_fill, find_contract, check_held, place_order,
}

-- An order that passes every check, on a store `s`.
pub record Fill (divide : ℤ → ℤ → ℤ) (fees : FeeSchedule) (market : Market) (symbol : ℕ)
    (side : SideWord) (quantity : ℤ) (c : Call) (s : Store) : Type 0 where
  pub is_buy : Bool
  pub contract : Contract
  pub ins_code : ℕ
  pub book : OrderBook
  pub avg : ℤ
  pub new : ℤ
  pub wanted : pos 0 <ℤ quantity
  pub sided : order_side side ≡ some is_buy
  pub held : is_buy ≡ false → quantity ≤ℤ held_of (find_position symbol s.working.positions)
  pub listed_as : listed (market.resolve_contract symbol) ≡ some (contract, ins_code)
  pub alive : c.today ≤ contract.expiry
  pub booked : market.try_get_order_book ins_code symbol ≡ some book
  pub filled : fill_price divide book side quantity ≡ some (some avg, new)
  pub some_filled : pos 0 <ℤ new
  pub affordable :
      is_buy ≡ true
      → avg *ℤ new *ℤ contract.contract_size
          +ℤ order_fee divide fees is_buy (avg *ℤ new *ℤ contract.contract_size)
        ≤ℤ cash_of s.working.account +ℤ reconciliation_tolerance

affordable-le :
    (required available : ℤ)
    → check_affordable required available ≡ true
    → required ≤ℤ available +ℤ reconciliation_tolerance
unfolding check_affordable
affordable-le required available h = leb_ℤ→≤ℤ required (available +ℤ reconciliation_tolerance) h

-- The sides that an order may have are sides of the book.
fill_price-ne-none :
    (divide : ℤ → ℤ → ℤ) (book : OrderBook) (side : SideWord) (quantity : ℤ) (is_buy : Bool)
    → order_side side ≡ some is_buy
    → fill_price divide book side quantity ≢ none
unfolding order_side fill_price
fill_price-ne-none divide book buy quantity is_buy o = ground arith
fill_price-ne-none divide book sell quantity is_buy o = ground arith
fill_price-ne-none divide book buy_fa quantity is_buy o = cc
fill_price-ne-none divide book sell_fa quantity is_buy o = cc
fill_price-ne-none divide book other quantity is_buy o = cc

module _ (divide : ℤ → ℤ → ℤ) (fees : FeeSchedule) (market : Market) (symbol : ℕ) (side : SideWord)
    (quantity : ℤ) (c : Call) (s : Store) where
  abbrev pub notional_of : Contract → ℤ → ℤ → ℤ
  notional_of contract avg new = avg *ℤ new *ℤ contract.contract_size

  abbrev pub run_of : Fill divide fees market symbol side quantity c s → Result OrderRow × Store
  run_of f =
      execute divide fees symbol side f.is_buy quantity c f.contract f.avg f.new
        (order_fee divide fees f.is_buy (notional_of f.contract f.avg f.new)) s

  -- A stage of `place_order` rejects the order, raises ValueError for its side, or executes it.
  abbrev pub Ends : Result OrderRow × Store → Type 0
  Ends r =
      ((why : Reason) × (r ≡ reject symbol side quantity c why s))
      ⊎ ((f : Fill divide fees market symbol side quantity c s) × (r ≡ run_of f))

  abbrev affords : Bool → Contract → ℤ → ℤ → Bool
  affords is_buy contract avg new =
      check_affordable
        (notional_of contract avg new
          +ℤ order_fee divide fees is_buy (notional_of contract avg new))
        (cash_of s.working.account)

  -- What `settle_fill` does with the fill, branch by branch.
  module _ (is_buy : Bool) (contract : Contract) (avg new : ℤ) where
    abbrev after_fill : Result OrderRow × Store
    after_fill = settle_fill divide fees symbol side is_buy quantity c contract (some avg, new) s

    abbrev executes : Result OrderRow × Store
    executes =
        execute divide fees symbol side is_buy quantity c contract avg new
          (order_fee divide fees is_buy (notional_of contract avg new)) s

    settle_empty : leb_ℤ new (pos 0) ≡ true → after_fill ≡ reject symbol side quantity c no_depth s
    unfolding settle_fill
    settle_empty z = rw z

    settle_sale : leb_ℤ new (pos 0) ≡ false → is_buy ≡ false → after_fill ≡ executes
    unfolding settle_fill
    settle_sale z b = rw (z, b)

    settle_rich :
        leb_ℤ new (pos 0) ≡ false
        → is_buy ≡ true
        → affords is_buy contract avg new ≡ true
        → after_fill ≡ executes
    unfolding settle_fill get_account_balance
    settle_rich z b r = rw (z, b, rw b at r)

    settle_poor :
        leb_ℤ new (pos 0) ≡ false
        → is_buy ≡ true
        → affords is_buy contract avg new ≡ false
        → after_fill ≡ reject symbol side quantity c no_cash s
    unfolding settle_fill get_account_balance
    settle_poor z b r = rw (z, b, rw b at r)

  module _ (is_buy : Bool) (w : pos 0 <ℤ quantity) (o : order_side side ≡ some is_buy)
      (h : is_buy ≡ false → quantity ≤ℤ held_of (find_position symbol s.working.positions)) where
    module _ (contract : Contract) (ins_code : ℕ)
        (l : listed (market.resolve_contract symbol) ≡ some (contract, ins_code)) where
      module _ (a : c.today ≤ contract.expiry) (book : OrderBook)
          (b : market.try_get_order_book ins_code symbol ≡ some book) (new : ℤ) where
        executed :
            (avg : ℤ)
            → fill_price divide book side quantity ≡ some (some avg, new)
            → pos 0 <ℤ new
            → (is_buy ≡ true
                → check_affordable
                    (notional_of contract avg new
                      +ℤ order_fee divide fees is_buy (notional_of contract avg new))
                    (cash_of s.working.account)
                  ≡ true)
            → Ends (
                execute divide fees symbol side is_buy quantity c contract avg new
                  (order_fee divide fees is_buy (notional_of contract avg new))
                  s)
        executed avg f p k = inr (
          record {
            is_buy = is_buy;
            contract = contract;
            ins_code = ins_code;
            book = book;
            avg = avg;
            new = new;
            wanted = w;
            sided = o;
            held = h;
            listed_as = l;
            alive = a;
            booked = b;
            filled = f;
            some_filled = p;
            affordable = λ e. affordable-le _ _ (k e);
          },
          refl,
        )

        settle_fill-Ends :
            (avg : Option ℤ)
            → fill_price divide book side quantity ≡ some (avg, new)
            → Ends (settle_fill divide fees symbol side is_buy quantity c contract (avg, new) s)
        settle_fill-Ends none f = inl (no_depth, unfold settle_fill in refl)
        settle_fill-Ends (some avg) f = elim (Bool-cases (leb_ℤ new (pos 0))) [
          | inl z ↦ inl (no_depth, settle_empty is_buy contract avg new z)
          | inr z ↦ elim (Bool-cases is_buy) [
            | inr sale ↦
                rw (settle_sale is_buy contract avg new z sale)
                  (executed avg f (leb_ℤ→<ℤ new (pos 0) z) (λ paying. cc))
            | inl paying ↦ elim (Bool-cases (affords is_buy contract avg new)) [
              | inl rich ↦
                  rw (settle_rich is_buy contract avg new z paying rich)
                    (executed avg f (leb_ℤ→<ℤ new (pos 0) z) (λ _. rich))
              | inr poor ↦ inl (no_cash, settle_poor is_buy contract avg new z paying poor)
            ]
          ]
        ]

      find_fill-Ends :
          Ends (find_fill divide fees market symbol side is_buy quantity c contract ins_code s)
      unfolding find_fill
      find_fill-Ends = elim (Bool-cases (ltb contract.expiry c.today)) [
        | inl z ↦ inl (expired, rw z)
        | inr z ↦ elim (Option-cases (market.try_get_order_book ins_code symbol)) [
          | inl n ↦ inl (no_book, rw (z, n))
          | inr (book, b) ↦ elim (Option-cases (fill_price divide book side quantity)) [
            | inl n ↦ absurd (fill_price-ne-none divide book side quantity is_buy o n)
            | inr ((avg, new), f) ↦ rw (z, b, f) (settle_fill-Ends (ground arith) book b new avg f)
          ]
        ]
      ]

    find_contract-Ends : Ends (find_contract divide fees market symbol side is_buy quantity c s)
    unfolding find_contract
    find_contract-Ends = elim (Option-cases (listed (market.resolve_contract symbol))) [
      | inl n ↦ inl (no_contract, rw (n, find_contract))
      | inr ((contract, ins_code), l) ↦ rw (l, find_contract) (find_fill-Ends contract ins_code l)
    ]

  check_held-Ends :
      (is_buy : Bool)
      → pos 0 <ℤ quantity
      → order_side side ≡ some is_buy
      → Ends (check_held divide fees market symbol side is_buy quantity c s)
  unfolding check_held get_position
  check_held-Ends true w o = find_contract-Ends true w o (λ sale. cc)
  check_held-Ends false w o =
      elim (Bool-cases (ltb_ℤ (held_of (find_position symbol s.working.positions)) quantity)) [
        | inl z ↦ inl (not_held, rw z)
        | inr z ↦ rw z (find_contract-Ends false w o (λ _. ground arith))
      ]

  -- `place_order` rejects the order for one of its reasons, or the order passes every check (of
  -- quantity, side, position, contract, expiry, book, depth and cash) and is executed at the fill of
  -- the book.
  pub place_order-Ends : Ends (place_order divide fees market symbol side quantity c s)
  unfolding place_order
  place_order-Ends = elim (Bool-cases (leb_ℤ quantity (pos 0))) [
    | inl z ↦ inl (bad_quantity, rw z)
    | inr z ↦ elim (Option-cases (order_side side)) [
      | inl n ↦ inl (bad_side, rw (z, n))
      | inr (is_buy, o) ↦ rw (z, o) (check_held-Ends is_buy (leb_ℤ→<ℤ quantity (pos 0) z) o)
    ]
  ]
