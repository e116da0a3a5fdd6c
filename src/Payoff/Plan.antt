-- ===== src/Payoff/Plan.antt =====
-- What option_signal_bot/strategies/payoff.py shows of a structure: its curve, its break-evens and its
-- plan of orders, and how its legs are made. `round_price` rounds to two decimals.
use kh_optionbaz.Prelude.{
  ℕ, zero, suc, ◌-◌, ltb, Bool, ◌||◌, not, Option, none, some, List, [], ◌∷◌, map, length,
  if◌then◌else◌, ltb_ℤ, leb_ℤ, ℤ, pos, ◌+ℤ◌, ◌-ℤ◌, ◌*ℤ◌, abs, sum_of, same, Ratio, ratio,
}
use package.kh_optionbaz.Payoff.Leg.{PositionLeg, OptionType}
use kh_optionbaz.Payoff.{StrategyPayoff, payoff, strikes_in, smallest, greatest}

-- `x or y` of a price that may be missing.
abbrev or_price : Option ℤ → ℤ → ℤ
or_price none rest = rest
or_price (some price) rest = if same price (pos 0) then rest else price

abbrev or_bound : Option ℤ → ℤ → ℤ
or_bound none rest = rest
or_bound (some bound) rest = bound

pub record Point : Type 0 where
  pub price : ℤ
  pub value : ℤ

abbrev least_of : List ℤ → Option ℤ
least_of [] = none
least_of (p ∷ ps) = some (smallest p ps)

abbrev most_of : List ℤ → Option ℤ
most_of [] = none
most_of (p ∷ ps) = some (greatest p ps)

module _ (divide : ℤ → ℤ → ℤ) where
  abbrev mean_of : List ℤ → ℤ
  mean_of [] = pos 0
  mean_of (k ∷ ks) = divide (sum_of (λ n. n) (k ∷ ks)) (pos (length (k ∷ ks)))

  -- `_center_strike`
  unfoldable pub center_strike : List PositionLeg → ℤ
  center_strike legs = mean_of (strikes_in legs)

  abbrev tenths : ℤ → ℤ → ℤ
  tenths center n = divide (center *ℤ n) (pos 10)

  -- `n` points from `price` on.
  unfoldable pub curve_points : StrategyPayoff → ℤ → ℕ → ℤ → ℤ → List Point
  unfolding payoff
  curve_points s low zero i step = []
  curve_points s low (suc n) i step =
      let price = low +ℤ i *ℤ step in
      record { price = price; value = payoff divide s price }
      ∷ curve_points s low n (i +ℤ pos 1) step

  unfoldable pub payoff_curve : StrategyPayoff → Option ℤ → Option ℤ → ℕ → List Point
  unfolding center_strike curve_points
  payoff_curve s low high points =
      let center = or_price s.underlying_price (center_strike s.legs) in
      let start = or_bound low (tenths center (pos 6)) in
      let end = or_bound high (tenths center (pos 14)) in
      let n = if ltb points 2 then 2 else points in
      let step = divide (end -ℤ start) (pos (n - 1)) in
      if leb_ℤ center (pos 0) then [] else curve_points s start n (pos 0) step

  -- Where the curve is 0 at the start of a piece, or changes its sign within it.
  abbrev crossing : Point → Point → List ℤ → List ℤ
  crossing a b found =
      let between =
        a.price +ℤ divide ((b.price -ℤ a.price) *ℤ abs a.value) (abs a.value +ℤ abs b.value) in
      if same a.value (pos 0)
      then a.price ∷ found
      else if ltb_ℤ (a.value *ℤ b.value) (pos 0)
      then between ∷ found
      else found

  unfoldable pub crossings : List Point → List ℤ
  crossings [] = []
  crossings (a ∷ []) = []
  crossings (a ∷ b ∷ points) = let rest = crossings (b ∷ points) in crossing a b rest

  module _ (round_price : ℤ → ℤ) where
    unfoldable pub breakevens : StrategyPayoff → List ℤ
    unfolding payoff_curve crossings center_strike
    breakevens s =
        let center = or_price s.underlying_price (center_strike s.legs) in
        let points =
          payoff_curve s (some (tenths center (pos 3))) (some (tenths center (pos 17))) 201 in
        if not s.single_expiry
        then []
        else if leb_ℤ center (pos 0)
        then []
        else map round_price (crossings points)

    unfoldable pub lower_breakeven : StrategyPayoff → Option ℤ
    unfolding breakevens
    lower_breakeven s = least_of (breakevens s)

    unfoldable pub upper_breakeven : StrategyPayoff → Option ℤ
    unfolding breakevens
    upper_breakeven s = most_of (breakevens s)

    abbrev distance_from : ℤ → List ℤ → Option Ratio
    distance_from spot [] = none
    distance_from spot (p ∷ ps) =
        some (ratio (smallest (abs (p -ℤ spot)) (map (λ q. abs (q -ℤ spot)) ps)) spot)

    abbrev distance_of : Option ℤ → List ℤ → Option Ratio
    distance_of none points = none
    distance_of (some spot) points = if leb_ℤ spot (pos 0) then none else distance_from spot points

    unfoldable pub distance_to_breakeven : StrategyPayoff → Option Ratio
    unfolding breakevens
    distance_to_breakeven s = distance_of s.underlying_price (breakevens s)

    abbrev zone_of : List ℤ → Option (ℤ × ℤ)
    zone_of [] = none
    zone_of (p ∷ []) = none
    zone_of (p ∷ q ∷ ps) = some (smallest p (q ∷ ps), greatest p (q ∷ ps))

    unfoldable pub profit_zone : StrategyPayoff → Option (ℤ × ℤ)
    unfolding breakevens
    profit_zone s = zone_of (breakevens s)

-- A line of the plan of orders.
pub record PlannedOrder : Type 0 where
  pub buy : Bool
  pub instrument : Option OptionType
  pub symbol : ℕ
  pub strike : Option ℤ
  pub expiry : Option ℕ
  pub quantity : ℤ
  pub contract_size : ℤ
  pub limit_price : ℤ
  pub ins_code : Option ℕ

unfoldable pub order_plan : StrategyPayoff → List PlannedOrder
order_plan s =
    map
      (λ leg. record {
        buy = leg.is_long;
        instrument = leg.option_type;
        symbol = leg.symbol;
        strike = leg.strike;
        expiry = leg.expiry;
        quantity = leg.quantity;
        contract_size = leg.contract_size;
        limit_price = leg.entry_price;
        ins_code = leg.ins_code;
      })
      s.legs

-- The leg of the underlying itself.
unfoldable pub underlying_leg : ℕ → ℤ → ℤ → ℤ → Bool → PositionLeg
underlying_leg symbol price quantity contract_size buy = record {
  is_long = buy;
  quantity = quantity;
  entry_price = price;
  contract_size = contract_size;
  option_type = none;
  strike = none;
  expiry = none;
  symbol = symbol;
  bid = none;
  ask = none;
  open_interest = pos 0;
  volume = pos 0;
  ins_code = none;
}

-- The fields of an option contract that a leg takes.
pub record OptionContract : Type 0 where
  pub symbol : ℕ
  pub option_type : OptionType
  pub strike : ℤ
  pub expiry : ℕ
  pub bid : Option ℤ
  pub ask : Option ℤ
  pub last_price : Option ℤ
  pub open_interest : ℤ
  pub volume : ℤ
  pub contract_size : ℤ
  pub ins_code : Option ℕ

-- `x or y`, where both may be missing.
abbrev or_other : Option ℤ → Option ℤ → Option ℤ
or_other none rest = rest
or_other (some price) rest = if same price (pos 0) then rest else some price

abbrev mid_of : (ℤ → ℤ → ℤ) → Option ℤ → Option ℤ → Option ℤ → Option ℤ
mid_of divide (some bid) (some ask) last =
    if same bid (pos 0) || same ask (pos 0) then last else some (divide (bid +ℤ ask) (pos 2))
mid_of divide _ _ last = last

unfoldable pub mid_price : (ℤ → ℤ → ℤ) → OptionContract → Option ℤ
mid_price divide c = mid_of divide c.bid c.ask c.last_price

-- A buyer pays the ask and a seller gets the bid, where there is one.
unfoldable pub leg_from_contract : (ℤ → ℤ → ℤ) → OptionContract → Bool → ℤ → PositionLeg
unfolding mid_price
leg_from_contract divide c buy quantity =
    let quoted = if buy then c.ask else c.bid in
    record {
      is_long = buy;
      quantity = quantity;
      entry_price = or_price quoted (or_price (or_other (mid_price divide c) c.last_price) (pos 0));
      contract_size = c.contract_size;
      option_type = some c.option_type;
      strike = some c.strike;
      expiry = some c.expiry;
      symbol = c.symbol;
      bid = c.bid;
      ask = c.ask;
      open_interest = c.open_interest;
      volume = c.volume;
      ins_code = c.ins_code;
    }
