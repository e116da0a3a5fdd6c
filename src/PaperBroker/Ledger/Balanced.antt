-- ===== src/PaperBroker/Ledger/Balanced.antt =====
-- `account_snapshot` of option_signal_bot/execution/paper_broker.py, and the reconciliation of
-- option_signal_bot/execution/paper_account.py, in the stores that the broker reaches.
use kh_optionbaz.Prelude.{
  ℕ, ◌≡◌, ◌≢◌, inl, inr, Option-cases, refl, ap, ◌∙◌, true, Option, none, some, List, [], ◌∷◌, ℤ,
  pos, ◌-ℤ◌, All, All-sort_by, keep, sum_of, sum_of-sort_by, sort_by, ltb, abs, int_laws, parts_eq,
}
use kh_optionbaz.Fees.{FeeSchedule, rates_known}
use kh_optionbaz.PaperStore.{Account, PositionRow, TradeRow, Tables, Store, Result, trades_since}
use kh_optionbaz.PaperAccount.{
  AccountSnapshot, PositionValuation, no_trades, summarize_trades, costs, costs_complete, or_zero,
  reconciliation, checked,
}
use kh_optionbaz.PaperAccount.Totals.{missing, summarize_from-IsTotal}
use kh_optionbaz.PaperAccount.Reconcile.{IsValued, spent_on, gap, reconciliation-gap}
use kh_optionbaz.PaperBroker.{Market, Call}
use kh_optionbaz.PaperBroker.Ledger.{IsCosted, basis_sum, earned, IsSized}
use kh_optionbaz.PaperBroker.Ledger.Placed.{IsKept}
use kh_optionbaz.PaperBroker.Ledger.Runs.{IsReached, IsReached-IsKept}
use kh_optionbaz.PaperBroker.Valuation.{value_all, account_snapshot}
use kh_optionbaz.PaperBroker.Valuation.Priced.{IsPriced}
use kh_optionbaz.PaperBroker.Valuation.Shape.{value_one-IsShaped}

-- Every position has a value, which keeps what the position has cost where there is a price.
module _ (divide : ℤ → ℤ → ℤ) (market : Market) (sizes : ℕ → ℤ)
    (sized : (symbol : ℕ) → IsSized sizes symbol (market.resolve_contract symbol)) (today : ℕ) where
  abbrev IsValuation : List PositionRow → List PositionValuation → Type 0
  IsValuation rows vs =
      All IsPriced vs → (sum_of spent_on vs ≡ basis_sum sizes rows) × All IsValued vs

  value_all-IsValuation :
      (rows : List PositionRow)
      → All (λ p. p.entry_fees_known ≡ true) rows
      → (vs : List PositionValuation) × (value_all divide market rows today ≡ some vs)
        × IsValuation rows vs
  value_all-IsValuation [] k = ([], refl, λ _. (refl, tt))
  value_all-IsValuation (row ∷ rows) k =
      let (v, e, shaped) = value_one-IsShaped divide market sizes row today (sized row.symbol) in
      let (vs, f, shapes) = value_all-IsValuation rows k.1 in
      (
        v ∷ vs,
        rw (e, f) refl,
        λ t.
            let (same, valued) = shaped t.0 in
            let (sames, valueds) = shapes t.1 in (rw (same, sames) refl, (valued k.0, valueds)),
      )

-- The totals of the trades, when all costs are known.
none-missing :
    (f : TradeRow → Option ℤ) (ts : List TradeRow)
    → ((t : TradeRow) → IsCosted t → f t ≢ none)
    → All IsCosted ts
    → missing f ts ≡ 0
none-missing f [] k _ = refl
none-missing f (t ∷ ts) k c = elim (Option-cases (f t)) [
  | inl n ↦ absurd (k t c.0 n)
  | inr (x, e) ↦ rw e (none-missing f ts k c.1)
]

keep_all : (ts : List TradeRow) → keep (λ _. true) ts ≡ ts
keep_all [] = refl
keep_all (t ∷ ts) = ap (λ l. t ∷ l) (keep_all ts)

sum-earned :
    (ts : List TradeRow)
    → sum_of earned ts
      ≡ sum_of (λ t. or_zero t.gross_pnl) ts
        -ℤ sum_of (λ t. or_zero t.entry_fee) ts
        -ℤ sum_of (λ t. or_zero t.exit_fee) ts
sum-earned [] = omega int_laws
sum-earned (t ∷ ts) = rw (sum-earned ts) (omega int_laws)

totals-net :
    (ts : List TradeRow)
    → All IsCosted ts
    → (costs_complete (summarize_trades ts) ≡ true)
      × ((summarize_trades ts).gross -ℤ costs (summarize_trades ts) ≡ sum_of earned ts)
unfolding summarize_trades costs costs_complete
totals-net ts k =
    let t = summarize_from-IsTotal ts no_trades in
    let entry = none-missing (λ r. r.entry_fee) ts (λ _ c. c.entry_known) k in
    let exit = none-missing (λ r. r.exit_fee) ts (λ _ c. c.exit_known) k in
    (
      rw (t.missing_entry_eq, t.missing_exit_eq, entry, exit) refl,
      omega (
        int_laws,
        parts_eq t.gross_eq,
        parts_eq t.entry_eq,
        parts_eq t.exit_eq,
        parts_eq (sum-earned ts),
      ),
    )

module _ (divide : ℤ → ℤ → ℤ) (fees : FeeSchedule) (market : Market) (sizes : ℕ → ℤ) (initial : ℤ)
    (c : Call) where
  -- The snapshot that `account_snapshot` makes of the tables.
  abbrev snapshot_of : Account → Tables → List PositionValuation → AccountSnapshot
  snapshot_of a t vs = record {
    initial_balance = a.initial_balance;
    cash = a.cash;
    positions = vs;
    realized = summarize_trades (trades_since none t.trades);
    rates_configured = rates_known fees;
    blocked = pos 0;
    priced_at = some c.now;
  }

  snapshot_effect :
      (s : Store) (a : Account) (vs : List PositionValuation)
      → s.working.account ≡ some a
      → value_all divide market (sort_by (λ x y. ltb x.symbol y.symbol) s.working.positions) c.today
        ≡ some vs
      → account_snapshot divide market fees c s ≡ (Result.ok (snapshot_of a s.working vs), s)
  unfolding account_snapshot
  snapshot_effect s a vs e f = rw (e, f) refl

  no_gap :
      (s : Store) (k : IsKept sizes initial s) (vs : List PositionValuation)
      → sum_of spent_on vs ≡ basis_sum sizes s.working.positions
      → All IsValued vs
      → (actual : ℤ) × (expected : ℤ) × (reconciliation (snapshot_of k.account s.working vs)
          ≡ checked actual expected (pos 0) true)
  unfolding abs
  no_gap s k vs spent valued =
      let rows = trades_since none s.working.trades in
      let costed : All IsCosted rows =
        All-sort_by _ _ _ (rw (keep_all s.working.trades) k.ledger.costed) in
      let same : sum_of earned rows ≡ sum_of earned s.working.trades =
        sum_of-sort_by _ _ _ ∙ ap (sum_of earned) (keep_all s.working.trades) in
      let (complete, netted) = totals-net rows costed in
      let a = snapshot_of k.account s.working vs in
      let (actual, expected, e) = reconciliation-gap a valued complete in
      let balanced : gap a valued complete ≡ pos 0 =
        omega
          (int_laws, parts_eq spent, parts_eq netted, parts_eq same, parts_eq k.ledger.balanced) in
      (actual, expected, e ∙ rw (balanced, abs) refl)

  -- In every store that is reached by orders, settlements and resets (each with its own market and
  -- rates, which are known, with fresh identifiers of trades, and additions that are divided without
  -- remainder), `account_snapshot` returns, on any market where the contracts still have their sizes,
  -- and it writes nothing. Where its positions have a price, its reconciliation finds no difference,
  -- whatever the prices are and were.
  pub IsReached-balanced :
      (sized : (symbol : ℕ) → IsSized sizes symbol (market.resolve_contract symbol)) (s : Store)
      → IsReached divide sizes initial s
      → (a : AccountSnapshot) × (account_snapshot divide market fees c s ≡ (Result.ok a, s))
        × (All IsPriced a.positions
            → (actual : ℤ) × (expected : ℤ) × (reconciliation a
                ≡ checked actual expected (pos 0) true))
  IsReached-balanced sized s r =
      let k = IsReached-IsKept divide sizes initial s r in
      let rows = sort_by (λ x y. ltb x.symbol y.symbol) s.working.positions in
      let (vs, e, shapes) =
        value_all-IsValuation divide market sizes sized c.today rows
          (All-sort_by _ _ s.working.positions k.ledger.fees_known) in
      (
        snapshot_of k.account s.working vs,
        snapshot_effect s k.account vs k.ledger.opened e,
        λ t.
            let (spent, valued) = shapes t in
            no_gap s k vs (spent ∙ sum_of-sort_by _ _ s.working.positions) valued,
      )
