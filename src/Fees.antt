-- ===== src/Fees.antt =====
-- option_signal_bot/risk/fees.py: `FeeSchedule`. A rate is a fraction in millionths, and
-- `amount * rate` is the product over a million, brought back to the unit of the amounts by
-- `divide`. `describe`, a text for people, is not modelled.
use kh_optionbaz.Prelude.{
  Bool, true, false, not, ◌&&◌, ◌||◌, if◌then◌else◌, leb_ℤ, ℤ, pos, ◌+ℤ◌, ◌-ℤ◌, ◌*ℤ◌, abs, Ratio,
}
pub mod Laws

pub record FeeSchedule : Type 0 where
  pub buy_rate : ℤ
  pub sell_rate : ℤ
  pub sell_tax_rate : ℤ
  pub per_order : ℤ
  pub declared : Bool

abbrev pub rate_unit : ℤ
rate_unit = pos 1_000_000

abbrev is_nothing : ℤ → Bool
is_nothing n = leb_ℤ n (pos 0) && leb_ℤ (pos 0) n

-- `FeeSchedule.is_zero`
unfoldable pub is_zero : FeeSchedule → Bool
is_zero f =
    is_nothing f.buy_rate
    && is_nothing f.sell_rate
    && is_nothing f.sell_tax_rate
    && is_nothing f.per_order

unfoldable pub rates_known : FeeSchedule → Bool
unfolding is_zero
rates_known f = f.declared || not (is_zero f)

unfoldable pub round_trip_rate : FeeSchedule → ℤ
round_trip_rate f = f.buy_rate +ℤ f.sell_rate +ℤ f.sell_tax_rate

module _ (divide : ℤ → ℤ → ℤ) where
  abbrev pub times_rate : ℤ → ℤ → ℤ
  times_rate amount rate = divide (amount *ℤ rate) rate_unit

  unfoldable pub entry_cost : FeeSchedule → ℤ → Bool → ℤ
  entry_cost f notional is_buy =
      let rate = if is_buy then f.buy_rate else f.sell_rate +ℤ f.sell_tax_rate in
      times_rate (abs notional) rate +ℤ f.per_order

  unfoldable pub exit_cost : FeeSchedule → ℤ → Bool → ℤ
  exit_cost f notional was_buy =
      let rate = if was_buy then f.sell_rate +ℤ f.sell_tax_rate else f.buy_rate in
      times_rate (abs notional) rate +ℤ f.per_order

  unfoldable pub round_trip_cost : FeeSchedule → ℤ → Bool → ℤ
  unfolding entry_cost exit_cost
  round_trip_cost f notional is_buy = entry_cost f notional is_buy +ℤ exit_cost f notional is_buy

  unfoldable pub breakeven_premium : FeeSchedule → ℤ → Bool → ℤ
  unfolding round_trip_rate
  breakeven_premium f premium is_buy =
      if leb_ℤ premium (pos 0)
      then premium
      else let shift = times_rate premium (round_trip_rate f) in
        if is_buy then premium +ℤ shift else premium -ℤ shift

  -- `premium * (1 ± target_pct / 100)`, shifted by the fees.
  unfoldable pub net_take_profit : FeeSchedule → ℤ → Ratio → Bool → ℤ
  unfolding round_trip_rate
  net_take_profit f premium target_pct is_buy =
      if leb_ℤ premium (pos 0)
      then premium
      else let whole = pos 100 *ℤ target_pct.den in
        let shift = times_rate premium (round_trip_rate f) in
        if is_buy
        then divide (premium *ℤ (whole +ℤ target_pct.num)) whole +ℤ shift
        else divide (premium *ℤ (whole -ℤ target_pct.num)) whole -ℤ shift
