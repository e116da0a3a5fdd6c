-- ===== src/PaperBroker/Ledger/Sales.antt =====
-- The books under a sale of option_signal_bot/execution/paper_broker.py: each cost is counted once.
use kh_optionbaz.Prelude.{
  ℕ, ◌≡◌, refl, ap, arith, true, some, List, [], ◌∷◌, inl, inr, Bool-cases, All, All-append, ℤ, pos,
  ◌+ℤ◌, ◌-ℤ◌, ◌*ℤ◌, ◌≤ℤ◌, ◌<ℤ◌, leb_ℤ, leb_ℤ→≤ℤ, leb_ℤ→<ℤ, sum_of-append, int_laws, parts_eq, -ℤ-*ℤ,
  *ℤ_comm,
}
use kh_optionbaz.Fees.{FeeSchedule, rates_known}
use kh_optionbaz.PaperAccount.{allocate_entry_fee}
use kh_optionbaz.PaperStore.{Account, PositionRow, Tables, find_position}
use kh_optionbaz.PaperBroker.{Call, Contract, remaining_row, close_row}
use kh_optionbaz.PaperBroker.Effects.{sold, sale_row, share_of, left_of}
use kh_optionbaz.PaperBroker.Ledger.{basis_sum, earned, IsUnique, IsCosted, IsLedger}
use kh_optionbaz.PaperBroker.Ledger.Positions.{
  find-symbol, find-All, put_position-IsUnique, All-put_position, basis-put_old, basis-without,
  All-without, without-IsUnique,
}

-- The cost of what is left of a position, and the gross of what is sold.
left_cost : (v q n k : ℤ) → v *ℤ (q -ℤ n) *ℤ k ≡ v *ℤ q *ℤ k -ℤ v *ℤ n *ℤ k
left_cost v q n k =
    rw (*ℤ_comm v (q -ℤ n), -ℤ-*ℤ q n v, *ℤ_comm q v, *ℤ_comm n v) (-ℤ-*ℤ (v *ℤ q) (v *ℤ n) k)

pub gross_of_sale : (w v n k : ℤ) → (w -ℤ v) *ℤ n *ℤ k ≡ w *ℤ n *ℤ k -ℤ v *ℤ n *ℤ k
gross_of_sale w v n k = rw (-ℤ-*ℤ w v n) (-ℤ-*ℤ (w *ℤ n) (v *ℤ n) k)

-- The whole of a position takes all of its entry fees along.
pub allocate_whole :
    (divide : ℤ → ℤ → ℤ) (total closing held : ℤ)
    → pos 0 <ℤ held
    → held ≤ℤ closing
    → allocate_entry_fee divide total closing held ≡ total
unfolding allocate_entry_fee
allocate_whole divide total closing held h k = ground arith

module _ (divide : ℤ → ℤ → ℤ) (fees : FeeSchedule) (size : ℕ → ℤ) (symbol : ℕ) (new price fee : ℤ)
    (c : Call) where
  -- What a sale takes off the cost of the positions.
  basis_sold :
      (ps : List PositionRow) (p : PositionRow)
      → IsUnique ps
      → find_position symbol ps ≡ some p
      → pos 0 <ℤ p.quantity
      → new ≤ℤ p.quantity
      → basis_sum size (left_of divide symbol new c p ps)
          +ℤ (p.average_price *ℤ new *ℤ size symbol +ℤ share_of divide new p)
        ≡ basis_sum size ps
  basis_sold ps p u e h k =
      let same =
        ap (λ (s : ℕ). p.average_price *ℤ p.quantity *ℤ size s) (find-symbol symbol ps e) in
      elim (Bool-cases (leb_ℤ (p.quantity -ℤ new) (pos 0))) [
        | inl b ↦
            let small = leb_ℤ→≤ℤ (p.quantity -ℤ new) (pos 0) b in
            let whole : new ≡ p.quantity = omega int_laws in
            rw (b, allocate_whole divide p.entry_fees new p.quantity h (omega int_laws))
              (omega (
                int_laws,
                parts_eq (basis-without size symbol ps p u e),
                parts_eq same,
                parts_eq (ap (λ (n : ℤ). p.average_price *ℤ n *ℤ size symbol) whole),
              ))
        | inr b ↦
            let row = remaining_row symbol p new (share_of divide new p) c in
            rw b (
              omega (
                int_laws,
                parts_eq (basis-put_old row size ps p e),
                parts_eq same,
                parts_eq (left_cost p.average_price p.quantity new (size symbol)),
              ))
      ]

  All-left_of :
      (P : PositionRow → Type 0) (ps : List PositionRow) (p : PositionRow)
      → All P ps
      → ((opened : ℕ)
          → pos 0 <ℤ p.quantity -ℤ new
          → P (record (remaining_row symbol p new (share_of divide new p) c) {
            opened_at = opened;
          }))
      → All P (left_of divide symbol new c p ps)
  All-left_of P ps p h k = elim (Bool-cases (leb_ℤ (p.quantity -ℤ new) (pos 0))) [
    | inl b ↦ rw b (All-without P symbol ps h)
    | inr b ↦
        rw b
          (All-put_position _ P ps (λ opened. k opened (leb_ℤ→<ℤ (p.quantity -ℤ new) (pos 0) b)) h)
  ]

  left_of-IsUnique :
      (ps : List PositionRow) (p : PositionRow)
      → IsUnique ps
      → IsUnique (left_of divide symbol new c p ps)
  left_of-IsUnique ps p u = elim (Bool-cases (leb_ℤ (p.quantity -ℤ new) (pos 0))) [
    | inl b ↦ rw b (without-IsUnique symbol ps u)
    | inr b ↦ rw b (put_position-IsUnique _ ps u)
  ]

  module _ (contract : Contract) (p : PositionRow) (k : p.entry_fees_known ≡ true)
      (rates : rates_known fees ≡ true) where
    sale-IsCosted : IsCosted (sale_row divide fees symbol new price fee c contract p)
    unfolding close_row
    sale-IsCosted = record { entry_known = ground arith; exit_known = ground arith }

    earned-sale :
        earned (sale_row divide fees symbol new price fee c contract p)
        ≡ price *ℤ new *ℤ contract.contract_size
          -ℤ p.average_price *ℤ new *ℤ contract.contract_size
          -ℤ share_of divide new p
          -ℤ fee
    unfolding close_row
    earned-sale =
        rw (k, rates, gross_of_sale price p.average_price new contract.contract_size)
          (omega int_laws)

  -- The account after a sale.
  abbrev pub received : Account → Contract → Account
  received a contract = record a { cash = a.cash +ℤ price *ℤ new *ℤ contract.contract_size -ℤ fee }

  pub sold-IsLedger :
      (contract : Contract) (a : Account) (t : Tables) (p : PositionRow)
      → IsLedger size a t
      → rates_known fees ≡ true
      → contract.contract_size ≡ size symbol
      → find_position symbol t.positions ≡ some p
      → new ≤ℤ p.quantity
      → IsLedger size (received a contract) (sold divide fees symbol new price fee c contract a p t)
  sold-IsLedger contract a t p l rates sized e k =
      let positive = find-All _ symbol t.positions l.held e in
      let fee_known = find-All _ symbol t.positions l.fees_known e in
      record {
        opened = refl;
        done = l.done;
        held =
            All-left_of (λ p. pos 0 <ℤ p.quantity) t.positions p l.held
              (λ opened h. omega int_laws);
        unique = left_of-IsUnique t.positions p l.unique;
        fees_known =
            All-left_of (λ p. p.entry_fees_known ≡ true) t.positions p l.fees_known
              (λ opened h. fee_known);
        costed =
            All-append IsCosted t.trades _ l.costed (sale-IsCosted contract p fee_known rates, tt);
        balanced =
            rw
              (sum_of-append earned t.trades
                (sale_row divide fees symbol new price fee c contract p ∷ []))
              (omega (
                int_laws,
                parts_eq (basis_sold t.positions p l.unique e positive k),
                parts_eq l.balanced,
                parts_eq (earned-sale contract p fee_known rates),
                parts_eq (ap (λ (k : ℤ). price *ℤ new *ℤ k) sized),
                parts_eq (ap (λ (k : ℤ). p.average_price *ℤ new *ℤ k) sized),
              ));
      }
