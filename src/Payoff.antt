-- ===== src/Payoff.antt =====
-- option_signal_bot/strategies/payoff.py: the payoff of a structure of several legs, and what it can
-- gain and lose. `divide` is the division of two floats, brought back to the unit of the amounts.
-- The score of liquidity and the texts are left out.
mod Leg
mod Measures
pub mod Plan
pub mod Linear
pub mod Nodes
pub mod Bounds
pub mod Extremes
unfoldable pub use Leg.*
unfoldable pub use Measures.*
use kh_optionbaz.Prelude.{
  ℕ, Bool, true, false, not, ◌&&◌, ◌||◌, Option, none, some, List, [], ◌∷◌, ◌++◌, map, keep,
  if◌then◌else◌, ltb_ℤ, leb_ℤ, ℤ, pos, ◌+ℤ◌, ◌-ℤ◌, ◌*ℤ◌, abs, min_ℤ, max_ℤ, sum_of, sort_by, Ratio,
  ratio, same, distinct,
}

-- `leg.strike for leg in legs if leg.strike`
abbrev pub with_strike : Option ℤ → List ℤ → List ℤ
with_strike none ks = ks
with_strike (some k) ks = if same k (pos 0) then ks else k ∷ ks

abbrev pub strikes_in : List PositionLeg → List ℤ
strikes_in [] = []
strikes_in (leg ∷ legs) = with_strike leg.strike (strikes_in legs)

unfoldable pub strikes_of : List PositionLeg → List ℤ
strikes_of legs = sort_by ltb_ℤ (distinct (strikes_in legs))

abbrev pub last_of : ℤ → List ℤ → ℤ
last_of k [] = k
last_of k (n ∷ ns) = last_of n ns

abbrev pub or_half : (ℤ → ℤ → ℤ) → ℤ → ℤ → ℤ
or_half divide span top = if same span (pos 0) then divide top (pos 2) else span

-- The points between neighbours.
abbrev pub mids : (ℤ → ℤ → ℤ) → List ℤ → List ℤ
mids divide [] = []
mids divide (a ∷ []) = []
mids divide (a ∷ b ∷ ns) = divide (a +ℤ b) (pos 2) ∷ mids divide (b ∷ ns)

abbrev pub center_of : Option ℤ → ℤ
center_of none = pos 0
center_of (some price) = price

-- Where `_extreme` looks: the sorted strikes are never empty in its second branch.
abbrev pub probes_of : (ℤ → ℤ → ℤ) → Option ℤ → List ℤ → List ℤ
probes_of divide price [] =
    let center = center_of price in
    if same center (pos 0) then pos 0 ∷ [] else pos 0 ∷ (center *ℤ pos 2) ∷ []
probes_of divide price (k ∷ ks) =
    let top = last_of k ks in
    pos 0 ∷ (k ∷ ks) ++ ((top +ℤ or_half divide (top -ℤ k) top) ∷ mids divide (k ∷ ks))

-- `max(values)` and `min(values)` of a list that is not empty.
abbrev pub greatest : ℤ → List ℤ → ℤ
greatest v [] = v
greatest v (w ∷ ws) = greatest (max_ℤ v w) ws

abbrev pub smallest : ℤ → List ℤ → ℤ
smallest v [] = v
smallest v (w ∷ ws) = smallest (min_ℤ v w) ws

abbrev pub pick : Bool → List ℤ → ℤ
pick maximize [] = pos 0
pick maximize (v ∷ vs) = if maximize then greatest v vs else smallest v vs

module _ (divide : ℤ → ℤ → ℤ) where
  -- `payoff`
  unfoldable pub payoff : StrategyPayoff → ℤ → ℤ
  unfolding payoff_at commission
  payoff s price = sum_of (λ leg. payoff_at leg price) s.legs -ℤ commission divide s

  -- `_extreme`
  unfoldable pub extreme : StrategyPayoff → Bool → ℤ
  unfolding strikes_of
  extreme s maximize =
      pick maximize (map (payoff s) (probes_of divide s.underlying_price (strikes_of s.legs)))

  unfoldable pub max_profit : StrategyPayoff → Option ℤ
  max_profit s =
      if not s.single_expiry
      then none
      else if has_unlimited_upside s.legs
      then none
      else some (extreme s true)

  unfoldable pub max_loss : StrategyPayoff → Option ℤ
  max_loss s =
      if not s.single_expiry
      then none
      else if has_unlimited_downside s.legs
      then none
      else some (extreme s false)

  abbrev at_risk : Option ℤ → Option ℤ
  at_risk none = none
  at_risk (some loss) = if ltb_ℤ loss (pos 0) then some (abs loss) else none

  abbrev margin_or : Option ℤ → Option ℤ → Option ℤ
  margin_or none rest = rest
  margin_or (some margin) rest = some margin

  unfoldable pub required_capital : StrategyPayoff → Option ℤ
  unfolding net_cost max_loss
  required_capital s =
      if ltb_ℤ (pos 0) (net_cost divide s)
      then some (net_cost divide s)
      else margin_or s.required_margin (at_risk (max_loss s))

  abbrev over : Option ℤ → Option ℤ → Option Ratio
  over (some capital) (some profit) =
      if leb_ℤ capital (pos 0) then none else some (ratio profit capital)
  over _ _ = none

  unfoldable pub roi : StrategyPayoff → Option Ratio
  unfolding required_capital max_profit
  roi s = over (required_capital s) (max_profit s)

  abbrev over_loss : Option ℤ → Option ℤ → Option Ratio
  over_loss (some profit) (some loss) =
      if same loss (pos 0) then none else some (ratio profit (abs loss))
  over_loss _ _ = none

  unfoldable pub risk_reward : StrategyPayoff → Option Ratio
  unfolding max_profit max_loss
  risk_reward s = over_loss (max_profit s) (max_loss s)
