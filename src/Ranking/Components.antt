-- ===== src/Ranking/Components.antt =====
-- The five components of a score, and the amounts of money they rest on
-- (option_signal_bot/market/opportunity_ranking.py). `divide` is the division of two floats, brought
-- back to the unit of what it gives. `measured` is not rounded.
use kh_optionbaz.Prelude.{
  Bool, true, ◌||◌, Option, none, some, if◌then◌else◌, ltb_ℤ, leb_ℤ, ℤ, pos, ◌+ℤ◌, ◌-ℤ◌, ◌*ℤ◌,
  max_ℤ, min_ℤ, Ratio, ratio, ratio_leb, ratio_ltb,
}
use kh_optionbaz.Fees.{FeeSchedule, exit_cost}
use kh_optionbaz.Tradability.{
  LiquidityObservation, Thresholds, TradabilityReport, nonzero, usable_exit_depth_ratio, whole,
  counted,
}
use kh_optionbaz.Tradability
use package.kh_optionbaz.Ranking.Types.{
  RankingWeights, Component, ComponentKey, round_trip_cost, exit_capacity, time_to_expiry,
  required_move, fee_cost, Group, group_execution, group_risk, one,
}

-- `_clamp01`, where 1 is `one`.
unfoldable pub clamp01 : ℤ → ℤ
clamp01 value = max_ℤ (pos 0) (min_ℤ one value)

abbrev times_ratio : Ratio → Ratio → Ratio
times_ratio a b = ratio (a.num *ℤ b.num) (a.den *ℤ b.den)

abbrev minus_ratio : Ratio → Ratio → Ratio
minus_ratio a b = ratio (a.num *ℤ b.den -ℤ b.num *ℤ a.den) (a.den *ℤ b.den)

abbrev larger_ratio : Ratio → Ratio → Ratio
larger_ratio a b = if ratio_ltb a b then b else a

abbrev component : ComponentKey → Group → ℤ → Option ℤ → Option Ratio → Component
component key group weight score measured = record {
  key = key;
  group = group;
  weight = weight;
  score = score;
  measured = measured;
}

-- `breakeven_price`
unfoldable pub breakeven_price : ℤ → ℤ → Bool → ℤ → Option ℤ
breakeven_price strike entry_price call fee_per_unit =
    let total = entry_price +ℤ max_ℤ fee_per_unit (pos 0) in
    if leb_ℤ strike (pos 0) || ltb_ℤ entry_price (pos 0)
    then none
    else some (if call then strike +ℤ total else strike -ℤ total)

-- How far the underlying has to move, in percent of its price and never below 0.
abbrev pub needed_move : Option ℤ → Option ℤ → Bool → Option Ratio
needed_move (some breakeven) (some spot) call =
    let move = if call then breakeven -ℤ spot else spot -ℤ breakeven in
    if leb_ℤ spot (pos 0) then none else some (ratio (max_ℤ (move *ℤ pos 100) (pos 0)) spot)
needed_move _ _ call = none

-- The fees of both orders, in percent of what the entry takes.
abbrev pub fee_drag : Bool → Option ℤ → Option ℤ → Option ℤ → Option Ratio
fee_drag true (some entry_fee) (some exit_fee) (some capital) =
    if leb_ℤ capital (pos 0)
    then none
    else some (ratio ((entry_fee +ℤ exit_fee) *ℤ pos 100) capital)
fee_drag _ _ _ _ = none

module _ (divide : ℤ → ℤ → ℤ) where
  -- `value / limit`, where the result 1 is `one`.
  abbrev pub share : Ratio → Ratio → ℤ
  share value limit = divide (value.num *ℤ limit.den *ℤ one) (value.den *ℤ limit.num)

  -- `_lower_is_better`
  unfoldable pub lower_is_better : Option Ratio → Ratio → Option ℤ
  unfolding clamp01
  lower_is_better none limit = none
  lower_is_better (some value) limit =
      if leb_ℤ limit.num (pos 0) then none else some (clamp01 (one -ℤ share value limit) *ℤ pos 100)

  -- `_higher_is_better`
  unfoldable pub higher_is_better : Option Ratio → Ratio → Ratio → Option ℤ
  unfolding clamp01
  higher_is_better none floor comfort = none
  higher_is_better (some value) floor comfort =
      let span = minus_ratio comfort floor in
      if leb_ℤ span.num (pos 0)
      then some ((if ratio_leb floor value then one else pos 0) *ℤ pos 100)
      else some (clamp01 (share (minus_ratio value floor) span) *ℤ pos 100)

  unfoldable pub round_trip_cost_component : TradabilityReport → RankingWeights → Component
  unfolding lower_is_better
  round_trip_cost_component report w =
      let cost = Tradability.round_trip_cost_pct report.observation in
      component round_trip_cost group_execution w.weight_round_trip_cost
        (lower_is_better cost w.max_round_trip_cost_pct) cost

  unfoldable pub exit_capacity_component :
      TradabilityReport → Thresholds → RankingWeights → Component
  unfolding higher_is_better
  exit_capacity_component report t w =
      let depth = usable_exit_depth_ratio report.observation in
      let floor = t.min_exit_depth_ratio in
      let multiple = w.depth_comfort_multiple in
      let comfort = larger_ratio (times_ratio floor multiple) multiple in
      component exit_capacity group_execution w.weight_exit_capacity
        (higher_is_better depth floor comfort) depth

  unfoldable pub time_component : TradabilityReport → Thresholds → RankingWeights → Component
  unfolding higher_is_better
  time_component report t w =
      let days = counted report.observation.days_to_expiry in
      component time_to_expiry group_risk w.weight_time_to_expiry
        (higher_is_better days (whole t.min_days_to_expiry) (whole w.days_to_expiry_comfort)) days

  unfoldable pub required_move_component : Option ℤ → Option ℤ → Bool → RankingWeights → Component
  unfolding lower_is_better
  required_move_component breakeven spot call w =
      let move = needed_move (nonzero breakeven) (nonzero spot) call in
      component required_move group_risk w.weight_required_move
        (lower_is_better move w.max_required_move_pct) move

  unfoldable pub fee_cost_component :
      Option ℤ → Option ℤ → Option ℤ → Bool → RankingWeights → Component
  unfolding lower_is_better
  fee_cost_component entry_fee exit_fee_estimate capital rates_known w =
      let cost = fee_drag rates_known entry_fee exit_fee_estimate capital in
      component fee_cost group_risk w.weight_fee_cost (lower_is_better cost w.max_fee_cost_pct) cost

  abbrev loss_with : ℤ → ℤ → ℤ → Option ℤ → Option FeeSchedule → Option ℤ
  loss_with entry units stop (some entry_fee) (some schedule) =
      some ((entry -ℤ stop) *ℤ units +ℤ entry_fee +ℤ exit_cost divide schedule (stop *ℤ units) true)
  loss_with entry units stop _ _ = none

  -- `_stop_loss_loss`
  unfoldable pub stop_loss_loss : ℤ → ℤ → Option ℤ → Option ℤ → Option FeeSchedule → Option ℤ
  stop_loss_loss entry units none entry_fee schedule = none
  stop_loss_loss entry units (some stop) entry_fee schedule =
      if leb_ℤ stop (pos 0) || leb_ℤ entry stop
      then none
      else loss_with entry units stop entry_fee schedule
