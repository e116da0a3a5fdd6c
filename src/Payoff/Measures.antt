-- ===== src/Payoff/Measures.antt =====
-- The fields of `StrategyPayoff` (option_signal_bot/strategies/payoff.py), what it costs, and which
-- side of it is open. The rate of the commission is in millionths.
use kh_optionbaz.Prelude.{
  ℕ, Bool, true, false, not, ◌&&◌, ◌||◌, Option, none, some, List, [], ◌∷◌, keep, length, ltb,
  if◌then◌else◌, ltb_ℤ, leb_ℤ, ℤ, pos, ◌+ℤ◌, ◌-ℤ◌, ◌*ℤ◌, abs, min_ℤ, max_ℤ, sum_of, Ratio,
  ratio_ltb,
}
use package.kh_optionbaz.Payoff.Leg.{
  PositionLeg, OptionType, call, put, is_option, units, leg_entry_cost, leg_relative_spread,
}

pub record StrategyPayoff : Type 0 where
  pub legs : List PositionLeg
  pub expiration : Option ℕ
  pub commission_rate : ℤ
  pub underlying_price : Option ℤ
  pub required_margin : Option ℤ
  pub single_expiry : Bool

abbrev pub rate_unit : ℤ
rate_unit = pos 1_000_000

abbrev least_quantity : ℤ → List PositionLeg → ℤ
least_quantity n [] = n
least_quantity n (leg ∷ legs) = least_quantity (min_ℤ n leg.quantity) legs

abbrev quantity_in : List PositionLeg → ℤ
quantity_in [] = pos 0
quantity_in (leg ∷ legs) = least_quantity leg.quantity legs

-- `StrategyPayoff.quantity`
unfoldable pub structure_quantity : StrategyPayoff → ℤ
structure_quantity s = quantity_in s.legs

abbrev largest_size : ℤ → List PositionLeg → ℤ
largest_size n [] = n
largest_size n (leg ∷ legs) = largest_size (max_ℤ n leg.contract_size) legs

abbrev size_in : List PositionLeg → ℤ
size_in [] = pos 1000
size_in (leg ∷ legs) = largest_size leg.contract_size legs

unfoldable pub contract_multiplier : StrategyPayoff → ℤ
unfolding is_option
contract_multiplier s = size_in (keep is_option s.legs)

unfoldable pub net_premium : StrategyPayoff → ℤ
unfolding is_option leg_entry_cost
net_premium s = sum_of leg_entry_cost (keep is_option s.legs)

unfoldable pub net_credit : StrategyPayoff → Option ℤ
unfolding net_premium
net_credit s = if ltb_ℤ (net_premium s) (pos 0) then some (pos 0 -ℤ net_premium s) else none

unfoldable pub commission : (ℤ → ℤ → ℤ) → StrategyPayoff → ℤ
unfolding units
commission divide s =
    if leb_ℤ s.commission_rate (pos 0)
    then pos 0
    else divide (sum_of (λ leg. abs (leg.entry_price *ℤ units leg)) s.legs *ℤ s.commission_rate)
        rate_unit

unfoldable pub net_cost : (ℤ → ℤ → ℤ) → StrategyPayoff → ℤ
unfolding leg_entry_cost commission
net_cost divide s = sum_of leg_entry_cost s.legs +ℤ commission divide s

abbrev pub is_call : Option OptionType → Bool
is_call none = false
is_call (some call) = true
is_call (some put) = false

-- `leg.quantity`, where the leg is a call of this side.
abbrev pub calls_of : Bool → PositionLeg → ℤ
calls_of true leg = if is_call leg.option_type && leg.is_long then leg.quantity else pos 0
calls_of false leg = if is_call leg.option_type && not leg.is_long then leg.quantity else pos 0

abbrev pub long_underlying : PositionLeg → Bool
long_underlying leg = not (is_option leg) && leg.is_long

abbrev pub covered_by : PositionLeg → ℤ
covered_by leg = if long_underlying leg then leg.quantity else pos 0

abbrev pub any_leg : (PositionLeg → Bool) → List PositionLeg → Bool
any_leg test [] = false
any_leg test (leg ∷ legs) = test leg || any_leg test legs

abbrev pub is_nothing : ℤ → Bool
is_nothing n = leb_ℤ n (pos 0) && leb_ℤ (pos 0) n

-- `_has_unlimited_upside`
unfoldable pub has_unlimited_upside : List PositionLeg → Bool
has_unlimited_upside legs =
    let long_calls = sum_of (calls_of true) legs in
    let short_calls = sum_of (calls_of false) legs in
    ltb_ℤ short_calls long_calls || (any_leg long_underlying legs && is_nothing short_calls)

-- `_has_unlimited_downside`
unfoldable pub has_unlimited_downside : List PositionLeg → Bool
has_unlimited_downside legs =
    ltb_ℤ (sum_of (calls_of true) legs +ℤ sum_of covered_by legs) (sum_of (calls_of false) legs)

abbrev least_interest : ℤ → List PositionLeg → ℤ
least_interest n [] = n
least_interest n (leg ∷ legs) = least_interest (min_ℤ n leg.open_interest) legs

abbrev interest_in : List PositionLeg → ℤ
interest_in [] = pos 0
interest_in (leg ∷ legs) = least_interest leg.open_interest legs

unfoldable pub min_open_interest : StrategyPayoff → ℤ
unfolding is_option
min_open_interest s = interest_in (keep is_option s.legs)

abbrev larger : Option Ratio → Option Ratio → Option Ratio
larger none b = b
larger (some a) none = some a
larger (some a) (some b) = some (if ratio_ltb a b then b else a)

abbrev largest_spread : List PositionLeg → Option Ratio
largest_spread [] = none
largest_spread (leg ∷ legs) = larger (leg_relative_spread leg) (largest_spread legs)

unfoldable pub max_relative_spread : StrategyPayoff → Option Ratio
unfolding is_option
max_relative_spread s = largest_spread (keep is_option s.legs)

unfoldable pub has_leg_risk : StrategyPayoff → Bool
unfolding is_option
has_leg_risk s = ltb 1 (length (keep is_option s.legs))
