-- ===== src/Fees/Laws.antt =====
-- The costs of option_signal_bot/risk/fees.py.
use kh_optionbaz.Prelude.{
  ◌≡◌, refl, Bool, true, false, arith, ℤ, pos, ◌+ℤ◌, ◌-ℤ◌, ◌*ℤ◌, ◌≤ℤ◌, ◌<ℤ◌, int_laws, parts_eq,
  *ℤ_nonneg, abs, +ℤ-*ℤ, -ℤ-*ℤ, *ℤ-+ℤ,
}
use kh_optionbaz.Fees.{
  FeeSchedule, entry_cost, exit_cost, rate_unit, breakeven_premium, round_trip_rate, times_rate,
}

-- No rate and no fixed fee is negative.
pub record IsFair (f : FeeSchedule) : Type 0 where
  pub buy_nonneg : pos 0 ≤ℤ f.buy_rate
  pub sell_nonneg : pos 0 ≤ℤ f.sell_rate
  pub tax_nonneg : pos 0 ≤ℤ f.sell_tax_rate
  pub order_nonneg : pos 0 ≤ℤ f.per_order

pub abs_nonneg : (a : ℤ) → pos 0 ≤ℤ abs a
unfolding abs ◌-ℤ◌
abs_nonneg a = ground arith

module _ (divide : ℤ → ℤ → ℤ) (nonneg : (x : ℤ) → pos 0 ≤ℤ x → pos 0 ≤ℤ divide x rate_unit) where
  -- Where the rates are fair, neither cost of a trade is negative, whatever the sign of its amount
  -- and whichever side it opens on (where the division of what is not negative is not).
  cost_nonneg :
      (f : FeeSchedule) (notional : ℤ) (side : Bool)
      → IsFair f
      → (pos 0 ≤ℤ entry_cost divide f notional side) × (pos 0 ≤ℤ exit_cost divide f notional side)
  unfolding entry_cost exit_cost
  cost_nonneg f n true fair = (
    omega (int_laws, nonneg _ (*ℤ_nonneg (abs n) f.buy_rate (abs_nonneg n) fair.buy_nonneg)),
    omega (
      int_laws,
      nonneg _ (*ℤ_nonneg (abs n) (f.sell_rate +ℤ f.sell_tax_rate) (abs_nonneg n) (omega int_laws)),
    ),
  )
  cost_nonneg f n false fair = (
    omega (
      int_laws,
      nonneg _ (*ℤ_nonneg (abs n) (f.sell_rate +ℤ f.sell_tax_rate) (abs_nonneg n) (omega int_laws)),
    ),
    omega (int_laws, nonneg _ (*ℤ_nonneg (abs n) f.buy_rate (abs_nonneg n) fair.buy_nonneg)),
  )

abs_pos : (a : ℤ) → pos 0 ≤ℤ a → abs a ≡ a
unfolding abs
abs_pos a h = ground arith

-- The division of `x` by the unit of the rates leaves no remainder.
abbrev pub IsExact : (ℤ → ℤ → ℤ) → ℤ → Type 0
IsExact divide x = divide x rate_unit *ℤ rate_unit ≡ x

-- What a buyer makes who buys one unit at `premium` and sells it at `breakeven_premium`.
abbrev pub breakeven_result : (ℤ → ℤ → ℤ) → FeeSchedule → ℤ → ℤ
breakeven_result divide f premium =
    let target = breakeven_premium divide f premium true in
    target -ℤ premium -ℤ entry_cost divide f premium true -ℤ exit_cost divide f target true

round_trip_rate_lem :
    (f : FeeSchedule) → round_trip_rate f ≡ f.buy_rate +ℤ f.sell_rate +ℤ f.sell_tax_rate
unfolding round_trip_rate
round_trip_rate_lem f = refl

-- The same on plain numbers: a price p, a shift s, the costs e and x of both orders, the fixed fee
-- o, the rates b, c and t, and their unit u.
loss_eq :
    (p s e x o b c t u : ℤ)
    → e *ℤ u ≡ p *ℤ b
    → s *ℤ u ≡ p *ℤ (b +ℤ c +ℤ t)
    → x *ℤ u ≡ (p +ℤ s) *ℤ (c +ℤ t)
    → (p +ℤ s -ℤ p -ℤ (e +ℤ o) -ℤ (x +ℤ o)) *ℤ u +ℤ s *ℤ (c +ℤ t) +ℤ (o +ℤ o) *ℤ u ≡ pos 0
loss_eq p s e x o b c t u entry whole exit =
    let same : p +ℤ s -ℤ p -ℤ (e +ℤ o) -ℤ (x +ℤ o) ≡ s -ℤ e -ℤ x -ℤ (o +ℤ o) = omega int_laws in
    rw same (
      omega (
        int_laws,
        parts_eq (-ℤ-*ℤ (s -ℤ e -ℤ x) (o +ℤ o) u),
        parts_eq (-ℤ-*ℤ (s -ℤ e) x u),
        parts_eq (-ℤ-*ℤ s e u),
        parts_eq entry,
        parts_eq whole,
        parts_eq exit,
        parts_eq (+ℤ-*ℤ p s (c +ℤ t)),
        parts_eq (*ℤ-+ℤ p c t),
        parts_eq (*ℤ-+ℤ p (b +ℤ c) t),
        parts_eq (*ℤ-+ℤ p b c),
      ))

module _ (divide : ℤ → ℤ → ℤ) (f : FeeSchedule) (premium : ℤ) where
  abbrev shift : ℤ
  shift = times_rate divide premium (round_trip_rate f)

  breakeven_eq : pos 0 <ℤ premium → breakeven_premium divide f premium true ≡ premium +ℤ shift
  unfolding breakeven_premium
  breakeven_eq h = ground arith

  -- At the price that `breakeven_premium` gives for a positive premium and a shift that is not
  -- negative, a buyer loses: the rates of the sale on the
  -- shift itself, and the fixed fee of both orders (where the divisions leave no remainder).
  breakeven_premium_loss :
      pos 0 <ℤ premium
      → pos 0 ≤ℤ shift
      → IsExact divide (premium *ℤ f.buy_rate)
      → IsExact divide (premium *ℤ round_trip_rate f)
      → IsExact divide ((premium +ℤ shift) *ℤ (f.sell_rate +ℤ f.sell_tax_rate))
      → breakeven_result divide f premium *ℤ rate_unit
          +ℤ shift *ℤ (f.sell_rate +ℤ f.sell_tax_rate)
          +ℤ (f.per_order +ℤ f.per_order) *ℤ rate_unit
        ≡ pos 0
  unfolding entry_cost exit_cost
  breakeven_premium_loss h k entry whole exit =
      rw
        (breakeven_eq h, abs_pos premium (omega arith), abs_pos (premium +ℤ shift) (omega int_laws))
        (loss_eq premium shift (divide (premium *ℤ f.buy_rate) rate_unit)
          (divide ((premium +ℤ shift) *ℤ (f.sell_rate +ℤ f.sell_tax_rate)) rate_unit) f.per_order
          f.buy_rate f.sell_rate f.sell_tax_rate rate_unit entry
          (rw (← round_trip_rate_lem f) whole) exit)
