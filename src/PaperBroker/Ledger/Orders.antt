-- ===== src/PaperBroker/Ledger/Orders.antt =====
-- The books under a buy of option_signal_bot/execution/paper_broker.py: each cost is counted once.
use kh_optionbaz.Prelude.{
  ℕ, ◌≡◌, refl, ap, ◌∙◌, true, Option, none, some, List, inl, inr, Option-cases, ℤ, pos, ◌+ℤ◌, ◌-ℤ◌,
  ◌*ℤ◌, ◌<ℤ◌, int_laws, parts_eq, +ℤ-*ℤ, *ℤ_comm,
}
use kh_optionbaz.Fees.{FeeSchedule, rates_known}
use kh_optionbaz.PaperStore.{Account, PositionRow, Tables, find_position, put_position}
use kh_optionbaz.PaperBroker.{Call, Contract, bought_row, merged_price}
use kh_optionbaz.PaperBroker.Effects.{bought}
use kh_optionbaz.PaperBroker.Ledger.{basis_sum, IsLedger}
use kh_optionbaz.PaperBroker.Ledger.Positions.{
  find-symbol, find-All, put_position-IsUnique, All-put_position, basis-put_new, basis-put_old,
}

-- The average price of the merged position times its quantity is what both parts have cost: the
-- division of `_apply_buy` leaves no remainder.
abbrev pub IsMerged : (ℤ → ℤ → ℤ) → Option PositionRow → ℤ → ℤ → Type 0
IsMerged divide none price new = Unit
IsMerged divide (some p) price new =
    merged_price divide p price new *ℤ (p.quantity +ℤ new)
    ≡ p.quantity *ℤ p.average_price +ℤ new *ℤ price

-- The cost of the merged position, on plain numbers: quantities q and n, prices v and w, the merged
-- price m and the contract size k.
merged_cost :
    (q v n w m k : ℤ)
    → m *ℤ (q +ℤ n) ≡ q *ℤ v +ℤ n *ℤ w
    → m *ℤ (q +ℤ n) *ℤ k ≡ v *ℤ q *ℤ k +ℤ w *ℤ n *ℤ k
merged_cost q v n w m k e = rw (e, +ℤ-*ℤ (q *ℤ v) (n *ℤ w) k, *ℤ_comm q v, *ℤ_comm n w)

module _ (divide : ℤ → ℤ → ℤ) (fees : FeeSchedule) (size : ℕ → ℤ) (symbol : ℕ) (new price fee : ℤ)
    (c : Call) where
  -- What a buy adds to the cost of the positions.
  basis_bought :
      (ps : List PositionRow)
      → IsMerged divide (find_position symbol ps) price new
      → basis_sum size (
          put_position (bought_row divide fees symbol new price fee c (find_position symbol ps)) ps)
        ≡ basis_sum size ps +ℤ price *ℤ new *ℤ size symbol +ℤ fee
  basis_bought ps exact = elim (Option-cases (find_position symbol ps)) [
    | inl e ↦ rw e (
        basis-put_new (bought_row divide fees symbol new price fee c none) size ps e
        ∙ omega int_laws)
    | inr (p, e) ↦
        let merged = bought_row divide fees symbol new price fee c (some p) in
        let exact' : IsMerged divide (some p) price new = rw e at exact in
        let same : p.symbol ≡ symbol = find-symbol symbol ps e in
        let put = basis-put_old merged size ps p e in
        rw e (
          omega (
            int_laws,
            parts_eq put,
            parts_eq (merged_cost p.quantity p.average_price new price _ (size symbol) exact'),
            parts_eq (ap (λ (k : ℕ). p.average_price *ℤ p.quantity *ℤ size k) same),
          ))
  ]

  pub bought_quantity :
      (o : Option PositionRow)
      → pos 0 <ℤ new
      → ((p : PositionRow) → o ≡ some p → pos 0 <ℤ p.quantity)
      → pos 0 <ℤ (bought_row divide fees symbol new price fee c o).quantity
  bought_quantity none h k = h
  bought_quantity (some p) h k = omega (int_laws, k p refl)

  bought_known :
      (o : Option PositionRow)
      → rates_known fees ≡ true
      → ((p : PositionRow) → o ≡ some p → p.entry_fees_known ≡ true)
      → (bought_row divide fees symbol new price fee c o).entry_fees_known ≡ true
  bought_known none r k = r
  bought_known (some p) r k = rw (k p refl, r)

  -- The cash of the account after a buy or a sale.
  abbrev pub paid : Account → Contract → Account
  paid a contract = record a { cash = a.cash -ℤ price *ℤ new *ℤ contract.contract_size -ℤ fee }

  pub bought-IsLedger :
      (contract : Contract) (a : Account) (t : Tables)
      → IsLedger size a t
      → rates_known fees ≡ true
      → contract.contract_size ≡ size symbol
      → pos 0 <ℤ new
      → IsMerged divide (find_position symbol t.positions) price new
      → IsLedger size (paid a contract) (bought divide fees symbol new price fee c contract a t)
  bought-IsLedger contract a t l rates sized h exact =
      let o = find_position symbol t.positions in
      let row = bought_row divide fees symbol new price fee c o in
      record {
        opened = refl;
        done = l.done;
        held =
            All-put_position row (λ p. pos 0 <ℤ p.quantity) t.positions
              (λ _. bought_quantity o h (λ p e. find-All _ symbol t.positions l.held e)) l.held;
        unique = put_position-IsUnique row t.positions l.unique;
        fees_known =
            All-put_position row (λ p. p.entry_fees_known ≡ true) t.positions
              (λ _. bought_known o rates (λ p e. find-All _ symbol t.positions l.fees_known e))
              l.fees_known;
        costed = l.costed;
        balanced = omega (
          int_laws,
          parts_eq (basis_bought t.positions exact),
          parts_eq l.balanced,
          parts_eq (ap (λ (k : ℤ). price *ℤ new *ℤ k) sized),
        );
      }
