-- ===== src/PaperAccount/Reconcile.antt =====
-- `AccountSnapshot.reconciliation` of option_signal_bot/execution/paper_account.py.
use kh_optionbaz.Prelude.{
  ◌≡◌, refl, ap, true, false, not, some, List, [], ◌∷◌, keep, All, ℤ, ◌+ℤ◌, ◌-ℤ◌, ◌*ℤ◌, leb_ℤ, abs,
  sum_of, int_laws, parts_eq,
}
use kh_optionbaz.PaperAccount.{
  PositionValuation, AccountSnapshot, is_priced, market_value, unrealized_net, costs,
  costs_complete, net, account_unrealized_net, equity, reconciliation, checked,
  reconciliation_tolerance, or_zero, any_none,
}

-- A position that is priced, at a known price, and whose entry fees are known.
pub record IsValued (p : PositionValuation) : Type 0 where
  pub mark : ℤ
  pub marked : p.mark_price ≡ some mark
  pub priced : is_priced p.status ≡ true
  pub fees_known : p.entry_fees_known ≡ true

-- What the position has cost, its entry fees included.
abbrev pub spent_on : PositionValuation → ℤ
spent_on p = p.average_price *ℤ p.quantity *ℤ p.contract_size +ℤ p.entry_fees_open

abbrev worth : PositionValuation → ℤ
worth p = or_zero (market_value p)

abbrev gain : PositionValuation → ℤ
gain p = or_zero (unrealized_net p)

valued-gain :
    (p : PositionValuation)
    → IsValued p
    → (unrealized_net p ≡ some (gain p)) × (gain p ≡ worth p -ℤ spent_on p)
unfolding unrealized_net
valued-gain p v = rw (v.priced, v.marked, v.fees_known) (refl, omega int_laws)

module _ (ps : List PositionValuation) where
  abbrev priced_of : List PositionValuation
  priced_of = keep (λ p. is_priced p.status) ps

  abbrev unpriced_of : List PositionValuation
  unpriced_of = keep (λ p. not (is_priced p.status)) ps

all_priced :
    (ps : List PositionValuation) → All IsValued ps → (priced_of ps ≡ ps) × (unpriced_of ps ≡ [])
all_priced [] v = (refl, refl)
all_priced (p ∷ ps) v = let (k, u) = all_priced ps v.1 in rw v.0.priced (ap (λ l. p ∷ l) k, u)

no_unknown : (ps : List PositionValuation) → All IsValued ps → any_none ps ≡ false
no_unknown [] v = refl
no_unknown (p ∷ ps) v = rw ((valued-gain p v.0).0) (no_unknown ps v.1)

sum-gain :
    (ps : List PositionValuation)
    → All IsValued ps
    → sum_of gain ps ≡ sum_of worth ps -ℤ sum_of spent_on ps
sum-gain [] v = omega int_laws
sum-gain (p ∷ ps) v = omega (int_laws, parts_eq ((valued-gain p v.0).1), parts_eq (sum-gain ps v.1))

module _ (a : AccountSnapshot) (v : All IsValued a.positions)
    (complete : costs_complete a.realized ≡ true) where
  equity-known : equity a ≡ some (a.cash +ℤ sum_of worth a.positions)
  unfolding equity
  equity-known = let (k, u) = all_priced a.positions v in rw (u, k)

  unrealized-known : account_unrealized_net a ≡ some (sum_of gain a.positions)
  unfolding account_unrealized_net
  unrealized-known = let (k, u) = all_priced a.positions v in rw (u, k, no_unknown a.positions v)

  net-known : net a.realized ≡ some (a.realized.gross -ℤ costs a.realized)
  unfolding net
  net-known = rw complete

  -- How far the books are off: cash and cost of the positions against the initial balance and the
  -- net of the closed trades.
  abbrev pub gap : ℤ
  gap =
      a.cash
      +ℤ sum_of spent_on a.positions
      -ℤ (a.initial_balance +ℤ (a.realized.gross -ℤ costs a.realized))

  -- Where every position is priced and every cost is known, `reconciliation` applies, and the
  -- difference that it reports is how far the books are off, whatever the market prices are; `ok`
  -- says that this is at most the tolerance.
  pub reconciliation-gap :
      (actual : ℤ) × (expected : ℤ) × (reconciliation a
        ≡ checked actual expected gap (leb_ℤ (abs gap) reconciliation_tolerance))
  unfolding reconciliation
  reconciliation-gap =
      let actual = a.cash +ℤ sum_of worth a.positions -ℤ a.initial_balance in
      let expected = a.realized.gross -ℤ costs a.realized +ℤ sum_of gain a.positions in
      let same : actual -ℤ expected ≡ gap = omega (int_laws, parts_eq (sum-gain a.positions v)) in
      (actual, expected, rw (equity-known, unrealized-known, net-known, same))
