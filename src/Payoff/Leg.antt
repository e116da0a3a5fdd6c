-- ===== src/Payoff/Leg.antt =====
-- `PositionLeg` of option_signal_bot/strategies/payoff.py. The text of its role is not modelled.
use kh_optionbaz.Prelude.{
  ℕ, Bool, true, false, ◌||◌, Option, none, some, if◌then◌else◌, leb_ℤ, ℤ, pos, ◌+ℤ◌, ◌-ℤ◌, ◌*ℤ◌,
  max_ℤ, Ratio, ratio,
}

pub data OptionType : Type 0 where
  call put : OptionType

-- `is_long` is `side is Side.BUY`; an `option_type` of `none` is the underlying itself.
pub record PositionLeg : Type 0 where
  pub is_long : Bool
  pub quantity : ℤ
  pub entry_price : ℤ
  pub contract_size : ℤ
  pub option_type : Option OptionType
  pub strike : Option ℤ
  pub expiry : Option ℕ
  pub symbol : ℕ
  pub bid : Option ℤ
  pub ask : Option ℤ
  pub open_interest : ℤ
  pub volume : ℤ
  pub ins_code : Option ℕ

abbrev is_some : Option OptionType → Bool
is_some none = false
is_some (some t) = true

unfoldable pub is_option : PositionLeg → Bool
is_option leg = is_some leg.option_type

unfoldable pub units : PositionLeg → ℤ
units leg = leg.quantity *ℤ leg.contract_size

abbrev pub signed : Bool → ℤ → ℤ
signed true x = x
signed false x = pos 0 -ℤ x

-- `PositionLeg.entry_cost`: what is paid, or minus what is received.
unfoldable pub leg_entry_cost : PositionLeg → ℤ
unfolding units
leg_entry_cost leg = signed leg.is_long (leg.entry_price *ℤ units leg)

abbrev spread_of : Option ℤ → Option ℤ → Option ℤ
spread_of (some b) (some a) = if leb_ℤ b (pos 0) || leb_ℤ a (pos 0) then none else some (a -ℤ b)
spread_of _ _ = none

unfoldable pub bid_ask_spread : PositionLeg → Option ℤ
bid_ask_spread leg = spread_of leg.bid leg.ask

abbrev over_mid : Option ℤ → Option ℤ → Option ℤ → Option Ratio
over_mid (some spread) (some b) (some a) =
    if leb_ℤ (b +ℤ a) (pos 0) then none else some (ratio (spread *ℤ pos 2) (b +ℤ a))
over_mid _ _ _ = none

-- `PositionLeg.relative_spread`
unfoldable pub leg_relative_spread : PositionLeg → Option Ratio
unfolding bid_ask_spread
leg_relative_spread leg = over_mid (bid_ask_spread leg) leg.bid leg.ask

-- The value of one unit at expiry.
abbrev pub intrinsic : Option OptionType → Option ℤ → ℤ → ℤ
intrinsic none strike price = price
intrinsic (some t) none price = pos 0
intrinsic (some call) (some strike) price = max_ℤ (price -ℤ strike) (pos 0)
intrinsic (some put) (some strike) price = max_ℤ (strike -ℤ price) (pos 0)

unfoldable pub intrinsic_at : PositionLeg → ℤ → ℤ
intrinsic_at leg price = intrinsic leg.option_type leg.strike price

-- `payoff_at`, without commission.
unfoldable pub payoff_at : PositionLeg → ℤ → ℤ
unfolding intrinsic_at units
payoff_at leg price = signed leg.is_long ((intrinsic_at leg price -ℤ leg.entry_price) *ℤ units leg)
