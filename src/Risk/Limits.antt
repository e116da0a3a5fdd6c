-- ===== src/Risk/Limits.antt =====
-- What `RiskCalculator` of option_signal_bot/risk/risk_calculator.py lets through stays within its limits.
use mathlib.Core.Option.{some-injective}
use mathlib.Core.Path.{subst}
use native.Mathlib.Nat.{div-mul-le_self}
use kh_optionbaz.Prelude.{
  ◌≡◌, refl, ap, arith, inl, inr, ℕ, ◌/◌, false, ◌||◌, Bool-cases, some, ℤ, pos, negsuc, pos_part,
  ◌*ℤ◌, ◌≤ℤ◌, ◌<ℤ◌, leb_ℤ, ltb_ℤ, parts_eq, min_ℤ, max_ℤ, min_ℤ_bounds, max_ℤ_bounds, floor_div,
  *ℤ_mono, one-*ℤ, *ℤ_parts,
}
use kh_optionbaz.Fees.{FeeSchedule}
use kh_optionbaz.Risk.{
  RiskLimits, Signal, is_tradable, contracts_for, percent_of, risk_per_contract, quantity_for,
  evaluate_risk, apply_risk,
}

-- A number of parts fits into the whole.
floor_div_fits : (a n q : ℤ) → pos 0 <ℤ n → pos 0 <ℤ q → q ≤ℤ floor_div a (pos_part n) → q *ℤ n ≤ℤ a
unfolding floor_div
floor_div_fits (pos m) (pos n) q h p k =
    let part : pos (m / n) *ℤ pos n ≤ℤ pos m =
      omega (arith, *ℤ_parts (pos (m / n)) (pos n), div-mul-le_self m n) in
    omega (arith, *ℤ_mono q (pos (m / n)) (pos n) k (omega arith), part)
floor_div_fits (negsuc m) (pos n) q h p k = absurd (omega (arith, p, k))
floor_div_fits a (negsuc n) q h p k = absurd (omega (arith, h))

capped :
    (a b m : ℤ)
    → let q = max_ℤ (min_ℤ (min_ℤ a b) m) (pos 0) in pos 0 <ℤ q → (q ≤ℤ m) × (q ≤ℤ b) × (q ≤ℤ a)
capped a b m p =
    let (_, _, top) = max_ℤ_bounds (min_ℤ (min_ℤ a b) m) (pos 0) in
    let (x, y, _) = min_ℤ_bounds (min_ℤ a b) m in
    let (z, w, _) = min_ℤ_bounds a b in
    (omega (arith, p, top, x, y), omega (arith, p, top, x, w), omega (arith, p, top, x, z))

both_positive :
    (a b : ℤ) → (leb_ℤ a (pos 0) || leb_ℤ b (pos 0)) ≡ false → (pos 0 <ℤ a) × (pos 0 <ℤ b)
both_positive a b h = ground arith

product_positive : (a b : ℤ) → pos 0 <ℤ a → pos 0 <ℤ b → pos 0 <ℤ a *ℤ b
product_positive a b h k =
    omega (arith, *ℤ_mono (pos 1) a b (omega (arith, h)) (omega (arith, k)), parts_eq (one-*ℤ b), k)

premium_of : (a : ℤ) → pos 0 <ℤ max_ℤ a (pos 0) → max_ℤ a (pos 0) ≡ a
unfolding max_ℤ
premium_of a h = elim (Bool-cases (ltb_ℤ a (pos 0))) [
  | inl b ↦ absurd (let h' = rw b at h in omega (arith, h'))
  | inr b ↦ rw b refl
]

module _ (divide : ℤ → ℤ → ℤ) (round_to : ℕ → ℤ → ℤ) (limits : RiskLimits) where
  -- The limits on a number of contracts of which each costs `cost` and has `risk` at stake.
  pub record IsWithin (cost risk qty : ℤ) : Type 0 where
    pub some_contract : pos 0 <ℤ qty
    pub contracts : qty ≤ℤ limits.max_contracts
    pub exposure : qty *ℤ cost ≤ℤ percent_of divide limits.account_equity limits.max_position_pct
    pub budget :
        pos 0 <ℤ risk
        → qty *ℤ risk ≤ℤ percent_of divide limits.account_equity limits.risk_per_trade_pct

  quantity_for-IsWithin :
      (cost risk : ℤ)
      → pos 0 <ℤ cost
      → pos 0 <ℤ quantity_for divide round_to limits cost risk
      → IsWithin cost risk (quantity_for divide round_to limits cost risk)
  unfolding quantity_for contracts_for
  quantity_for-IsWithin cost risk h p =
      let cap = percent_of divide limits.account_equity limits.max_position_pct in
      let allowed = percent_of divide limits.account_equity limits.risk_per_trade_pct in
      let by_exposure = floor_div cap (pos_part cost) in
      let by_budget = contracts_for allowed risk in
      let (a, b, c) = capped by_budget by_exposure limits.max_contracts p in
      record {
        some_contract = p;
        contracts = a;
        exposure = floor_div_fits cap cost _ h p b;
        budget = λ r.
            let positive : leb_ℤ risk (pos 0) ≡ false = ground arith in
            let same_number : contracts_for allowed risk ≡ floor_div allowed (pos_part risk) =
              rw positive refl in
            floor_div_fits allowed risk _ r p (omega (arith, c, parts_eq same_number));
      }

  -- A signal that is let through suggests at least one contract and no more than are allowed; what they
  -- cost is within the share of the account for one position, and what is at risk in them, where
  -- anything is, within the share for one trade. Its price and the size of a contract are positive.
  pub apply_risk-IsWithin :
      (fees : FeeSchedule) (signal enriched : Signal) (contract_size : ℤ)
      → apply_risk divide round_to limits fees signal contract_size ≡ some enriched
      → (pos 0 <ℤ signal.suggested_price)
        × (pos 0 <ℤ contract_size)
        × IsWithin
            (signal.suggested_price *ℤ contract_size)
            (risk_per_contract divide round_to limits fees signal.is_buy
              (signal.suggested_price *ℤ contract_size))
            enriched.suggested_qty
  unfolding apply_risk is_tradable evaluate_risk
  apply_risk-IsWithin fees signal enriched contract_size e =
      let premium = max_ℤ signal.suggested_price (pos 0) in
      let cost = premium *ℤ contract_size in
      let risk = risk_per_contract divide round_to limits fees signal.is_buy cost in
      elim (Bool-cases (leb_ℤ premium (pos 0) || leb_ℤ contract_size (pos 0))) [
        | inl g ↦ absurd (cc (rw g at e))
        | inr g ↦
            let e' = rw g at e in
            elim (Bool-cases (ltb_ℤ (pos 0) (quantity_for divide round_to limits cost risk))) [
              | inr n ↦ absurd (cc (rw n at e'))
              | inl y ↦
                  let found = rw y at e' in
                  let (a, b) = both_positive premium contract_size g in
                  let qty : quantity_for divide round_to limits cost risk ≡ enriched.suggested_qty =
                    ap (λ (t : Signal). t.suggested_qty) (some-injective _ _ found) in
                  let price : premium ≡ signal.suggested_price =
                    premium_of signal.suggested_price a in
                  let within =
                    quantity_for-IsWithin cost risk (product_positive premium contract_size a b)
                      (ground arith) in
                  (
                    omega (arith, a, parts_eq price),
                    b,
                    subst
                        (λ (p : ℤ).
                          IsWithin (p *ℤ contract_size)
                            (risk_per_contract divide round_to limits fees signal.is_buy
                              (p *ℤ contract_size))
                            enriched.suggested_qty)
                        price (subst (λ (q : ℤ). IsWithin cost risk q) qty within),
                  )
            ]
      ]
