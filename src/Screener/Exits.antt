-- ===== src/Screener/Exits.antt =====
-- What a tradable verdict of option_signal_bot/market/tradability_screener.py says of the order book:
-- the position can be left.
use mathlib.Core.Option.{some-injective}
use mathlib.Core.Path.{subst}
use kh_optionbaz.Prelude.{
  ℕ, ◌≡◌, refl, ap, sym, ◌∙◌, arith, inl, inr, Bool, true, Bool-cases, Option, none, some,
  if◌then◌else◌, leb_ℤ, ℤ, pos, ◌≤ℤ◌, ◌<ℤ◌, leb_ℤ→≤ℤ, max_ℤ_bounds, Ratio, eq_of_parts, ◌&&◌,
}
use kh_optionbaz.OrderBook.{OrderBook, fill_price, can_fill, real_depth, depth_within}
use kh_optionbaz.Tradability.{
  LiquidityObservation, HistoryStats, Thresholds, TradabilityReport, tradable, ExitSide,
  slippage_pct, nonzero, exit_slippage_pct,
}
use kh_optionbaz.Tradability.Evidence.{IsEvident, evaluate-IsEvident}
use kh_optionbaz.Screener.{
  Sources, ListedContract, Moment, BookData, book_data, book_of, exit_word, entry_word, needed_of,
  level_one, fits, book_age, if_filled, seen_with, judged, history_for, data_of_book, book_or_level,
  exit_book, observe, evaluate_symbol,
}

-- The price and what is filled, of an order that is priced.
filled_whole :
    (needed : ℤ) (r : Option ℤ × ℤ) (p : ℤ) → if_filled needed r ≡ some p → leb_ℤ needed r.1 ≡ true
filled_whole needed (price, filled) p e = elim (Bool-cases (leb_ℤ needed filled)) [
  | inl b ↦ b
  | inr b ↦ absurd (cc (rw b at e))
]

book_data_exit :
    (needed : ℤ) (x y : Option (Option ℤ × ℤ)) (d e : Option ℤ) (band : Option (Option ℤ))
    (book : OrderBook) (buys : Bool) (age : Option Ratio) (b : BookData) (p : ℤ)
    → book_data needed x y d e band book buys age ≡ some b
    → b.filled_at ≡ some p
    → (r : Option ℤ × ℤ) × (x ≡ some r) × (leb_ℤ needed r.1 ≡ true)
book_data_exit needed (some r) (some q) (some d) (some e) (some band) book buys age b p k f =
    let same = ap (λ (c : BookData). c.filled_at) (some-injective _ _ k) in
    (r, refl, filled_whole needed r p (same ∙ f))
book_data_exit needed none y d e band book buys age b p k f = absurd cc
book_data_exit needed (some r) none d e band book buys age b p k f = absurd cc
book_data_exit needed (some r) (some q) none e band book buys age b p k f = absurd cc
book_data_exit needed (some r) (some q) (some d) none band book buys age b p k f = absurd cc
book_data_exit needed (some r) (some q) (some d) (some e) none book buys age b p k f = absurd cc

nonzero-some : (a : Option ℤ) (p : ℤ) → nonzero a ≡ some p → a ≡ some p
nonzero-some none p e = absurd cc
nonzero-some (some n) p e = elim (Bool-cases (leb_ℤ n (pos 0) && leb_ℤ (pos 0) n)) [
  | inl b ↦ absurd (cc (rw b at e))
  | inr b ↦ rw b at e
]

slippage_priced :
    (side : ExitSide) (a b : Option ℤ) (r : Ratio)
    → slippage_pct side a b ≡ some r
    → (p : ℤ) × (a ≡ some p)
slippage_priced side none b r e = absurd cc
slippage_priced side (some a) b r e = (a, refl)

-- The side of the exit takes an order of this quantity.
module _ (divide : ℤ → ℤ → ℤ) (s : Sources) (c : ListedContract) (buys : Bool) (quantity : ℤ) where
  -- By the book, where there is one, and else by the first level of the chain.
  pub data CanExit : Type 0 where
    by_book :
        (book : OrderBook)
        → book_of s c ≡ some book
        → can_fill divide book (exit_word buys) quantity ≡ some true
        → CanExit
    by_level :
        (level : ℤ)
        → book_of s c ≡ none
        → (if buys then c.bid_quantity else c.ask_quantity) ≡ some level
        → quantity ≤ℤ level
        → CanExit

module _ (divide : ℤ → ℤ → ℤ) (s : Sources) (t : Thresholds) where
  module _ (c : ListedContract) (buys : Bool) (quantity : ℤ) (b : BookData) (p : ℤ)
      (priced : b.filled_at ≡ some p) where
    exits_by_book :
        (book : OrderBook)
        → data_of_book divide s t book c.ins_code buys quantity ≡ some b
        → can_fill divide book (exit_word buys) (needed_of quantity) ≡ some true
    unfolding data_of_book can_fill
    exits_by_book book e =
        let (r, f, l) =
          book_data_exit (needed_of quantity)
            (fill_price divide book (exit_word buys) (needed_of quantity))
            (fill_price divide book (entry_word buys) (needed_of quantity))
            (real_depth book (exit_word buys)) (real_depth book (entry_word buys))
            (depth_within book (exit_word buys) t.max_exit_slippage_pct) book buys
            (book_age s c.ins_code) b p e priced in
        rw (f, can_fill) (ap some l)

    exits_by_level :
        (level : Option ℤ) (best : Option ℤ)
        → (if fits level (needed_of quantity) then best else none) ≡ some p
        → (n : ℤ) × (level ≡ some n) × (needed_of quantity ≤ℤ n)
    exits_by_level none best e = absurd cc
    exits_by_level (some n) best e = elim (Bool-cases (leb_ℤ (needed_of quantity) n)) [
      | inl k ↦ (n, refl, leb_ℤ→≤ℤ (needed_of quantity) n k)
      | inr k ↦ absurd (cc (rw k at e))
    ]

    exit_book-CanExit :
        (book : Option OrderBook)
        → book_of s c ≡ book
        → book_or_level divide s t c buys quantity book ≡ some b
        → CanExit divide s c buys (needed_of quantity)
    unfolding book_or_level level_one
    exit_book-CanExit (some book) k e = by_book book k (exits_by_book book e)
    exit_book-CanExit none k e =
        let same = ap (λ (d : BookData). d.filled_at) (some-injective _ _ e) in
        let (n, f, l) = exits_by_level _ _ (same ∙ priced) in by_level n k f l

  needed_of_positive : (quantity : ℤ) → pos 0 <ℤ quantity → needed_of quantity ≡ quantity
  needed_of_positive quantity h = omega (arith, eq_of_parts, max_ℤ_bounds quantity (pos 1))

  -- What an observation of a contract says, when the exit has a price.
  seen-CanExit :
      (c : ListedContract) (symbol : ℕ) (buys : Bool) (quantity : ℤ) (now : Moment)
      (d : Option BookData) (o : LiquidityObservation) (p : ℤ)
      → exit_book divide s t c buys quantity ≡ d
      → seen_with c symbol buys quantity now d ≡ some o
      → o.exit_fill_price ≡ some p
      → CanExit divide s c buys (needed_of quantity)
  unfolding exit_book
  seen-CanExit c symbol buys quantity now none o p k e f = absurd cc
  seen-CanExit c symbol buys quantity now (some b) o p k e f =
      let same = ap (λ (o : LiquidityObservation). o.exit_fill_price) (some-injective _ _ e) in
      exit_book-CanExit c buys quantity b p (same ∙ f) (book_of s c) refl k

  -- A tradable verdict needs an exit with a price.
  evident_price :
      (o : LiquidityObservation) (h : HistoryStats)
      → IsEvident o h t
      → (p : ℤ) × (o.exit_fill_price ≡ some p)
  unfolding exit_slippage_pct
  evident_price o h e =
      let (r, f, _) = e.slippage in
      let (p, k) = slippage_priced _ (nonzero o.exit_fill_price) (nonzero o.best_exit_price) r f in
      (p, nonzero-some o.exit_fill_price p k)

  module _ (symbol : ℕ) (buys : Bool) (quantity : ℤ) (now : Moment) where
    observe-CanExit :
        (contract : Option ListedContract) (o : LiquidityObservation) (p : ℤ)
        → observe divide s t symbol buys quantity contract now ≡ some o
        → o.exit_fill_price ≡ some p
        → (c : ListedContract) × (contract ≡ some c) × CanExit divide s c buys (needed_of quantity)
    unfolding observe
    observe-CanExit none o p e f =
        let same = ap (λ (o : LiquidityObservation). o.exit_fill_price) (some-injective _ _ e) in
        absurd (cc (same ∙ f))
    observe-CanExit (some c) o p e f =
        (c, refl, seen-CanExit c symbol buys quantity now _ o p refl e f)

    observe_quantity :
        (contract : Option ListedContract) (o : LiquidityObservation)
        → observe divide s t symbol buys quantity contract now ≡ some o
        → o.quantity ≡ quantity
    unfolding observe
    observe_quantity none o e =
        ap (λ (o : LiquidityObservation). o.quantity) (sym (some-injective _ _ e))
    observe_quantity (some c) o e = of_data (exit_book divide s t c buys quantity) e
      where
        of_data :
            (d : Option BookData)
            → seen_with c symbol buys quantity now d ≡ some o
            → o.quantity ≡ quantity
        of_data none k = absurd cc
        of_data (some b) k =
            ap (λ (o : LiquidityObservation). o.quantity) (sym (some-injective _ _ k))

    -- A verdict of tradable: the contract is listed, the order asks for something, and an order of
    -- the same quantity on the side of the exit is filled completely, by the real levels of the book
    -- or, without a book, by the first level of the chain; whatever depth the thresholds ask for.
    pub evaluate_symbol-CanExit :
        (report : TradabilityReport)
        → evaluate_symbol divide s t symbol buys quantity now ≡ some report
        → report.verdict ≡ tradable
        → (c : ListedContract) × (s.resolve_contract symbol ≡ some c)
          × (pos 0 <ℤ quantity)
          × CanExit divide s c buys quantity
    unfolding evaluate_symbol
    evaluate_symbol-CanExit report e v =
        of_observation (observe divide s t symbol buys quantity (s.resolve_contract symbol) now)
          refl e
      where
        of_observation :
            (m : Option LiquidityObservation)
            → observe divide s t symbol buys quantity (s.resolve_contract symbol) now ≡ m
            → judged (history_for s (s.resolve_contract symbol)) t m ≡ some report
            → (c : ListedContract) × (s.resolve_contract symbol ≡ some c)
              × (pos 0 <ℤ quantity)
              × CanExit divide s c buys quantity
        of_observation none k f = absurd cc
        of_observation (some o) k f =
            let h = history_for s (s.resolve_contract symbol) in
            let same = ap (λ (r : TradabilityReport). r.verdict) (some-injective _ _ f) in
            let evident = evaluate-IsEvident o h t (same ∙ v) in
            let (p, priced) = evident_price o h evident in
            let (c, found, exit) = observe-CanExit (s.resolve_contract symbol) o p k priced in
            let (_, _, asked, _) = evident.depth in
            let positive = subst (λ (q : ℤ). pos 0 <ℤ q) (observe_quantity _ o k) asked in
            (
              c,
              found,
              positive,
              subst (CanExit divide s c buys) (needed_of_positive quantity positive) exit,
            )
