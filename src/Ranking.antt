-- ===== src/Ranking.antt =====
-- option_signal_bot/market/opportunity_ranking.py: the order in which opportunities that passed the
-- screening are worth a closer look. `divide` is the division of two floats, brought back to the
-- unit of what it gives.
mod Types
mod Components
pub mod Order
pub mod Gates
pub mod Scores
pub mod Bands
pub mod Informed
unfoldable pub use Types.*
unfoldable pub use Components.*
use kh_optionbaz.Prelude.{
  ℕ, Bool, true, false, not, ◌&&◌, ◌||◌, Option, none, some, List, [], ◌∷◌, ltb, if◌then◌else◌,
  leb_ℤ, ℤ, pos, ◌+ℤ◌, ◌*ℤ◌, max_ℤ, Ratio, ratio_ltb, sort_by, then_by,
}
use kh_optionbaz.Fees.{FeeSchedule, rates_known, entry_cost, exit_cost}
use kh_optionbaz.Tradability.{
  Verdict, tradable, needs_review, rejected, EntryStatus, executable, short_of_depth, unknown_entry,
  entry_status, Thresholds, TradabilityReport, nonzero,
}

-- A dictionary of `candidates`. `leg_group_id` is `none` where it is missing or empty, `side_buy` is
-- `side.lower() == "buy"`, `call` is `option_type == "call"`.
pub record Candidate : Type 0 where
  pub symbol : ℕ
  pub strategy : ℕ
  pub side_buy : Bool
  pub quantity : ℤ
  pub report : TradabilityReport
  pub leg_group_id : Option ℕ
  pub call : Bool
  pub strike : ℤ
  pub contract_size : Option ℤ
  pub underlying_price : Option ℤ
  pub stop_loss_price : Option ℤ
  pub fees : Option FeeSchedule

-- `fees if (fees is not None and fees.rates_known) else None`
unfoldable pub schedule_of : Option FeeSchedule → Option FeeSchedule
schedule_of none = none
schedule_of (some f) = if rates_known f then some f else none

abbrev pub size_or_one : Option ℤ → ℤ
size_or_one size = elim (nonzero size) [ none ↦ pos 1 | some n ↦ n ]

abbrev pub units_of : Candidate → ℤ
units_of c = c.quantity *ℤ max_ℤ (size_or_one c.contract_size) (pos 1)

abbrev pub with_amount : Option ℤ → ℤ → Option ℤ
with_amount none amount = none
with_amount (some fee) amount = some (amount +ℤ fee)

abbrev pub both_fees : Option ℤ → Option ℤ → Option ℤ
both_fees (some a) (some b) = some (a +ℤ b)
both_fees _ _ = none

abbrev has_amount : Option ℤ → Bool
has_amount none = false
has_amount (some n) = true

abbrev pub has_schedule : Option FeeSchedule → Bool
has_schedule none = false
has_schedule (some f) = true

-- The guard of `rank_opportunity`.
abbrev pub only_executable : EntryStatus → RankedOpportunity → Option RankedOpportunity
only_executable executable r = some r
only_executable short_of_depth r = none
only_executable unknown_entry r = none

module _ (divide : ℤ → ℤ → ℤ) where
  abbrev pub entry_fee_of : Option FeeSchedule → ℤ → Option ℤ
  entry_fee_of none premium = none
  entry_fee_of (some f) premium = some (entry_cost divide f premium true)

  abbrev pub exit_fee_of : Option FeeSchedule → Option ℤ → ℤ → Option ℤ
  exit_fee_of (some f) (some price) units = some (exit_cost divide f (price *ℤ units) true)
  exit_fee_of _ _ units = none

  abbrev pub fee_per_unit_of : Option ℤ → ℤ → ℤ
  fee_per_unit_of none units = pos 0
  fee_per_unit_of (some fee) units =
      if leb_ℤ units (pos 0) && leb_ℤ (pos 0) units then pos 0 else divide fee units

  -- The amounts of a candidate, at the price of its entry.
  abbrev pub entry_fee_at : Candidate → ℤ → Option ℤ
  entry_fee_at c entry = entry_fee_of (schedule_of c.fees) (entry *ℤ units_of c)

  abbrev pub capital_at : Candidate → ℤ → Option ℤ
  capital_at c entry = with_amount (entry_fee_at c entry) (entry *ℤ units_of c)

  abbrev pub exit_fee_at : Candidate → Option ℤ
  exit_fee_at c =
      exit_fee_of (schedule_of c.fees) (nonzero c.report.observation.exit_fill_price) (units_of c)

  abbrev pub breakeven_at : Candidate → ℤ → Option ℤ
  breakeven_at c entry =
      breakeven_price c.strike entry c.call (fee_per_unit_of (entry_fee_at c entry) (units_of c))

  unfoldable pub components_at : Thresholds → RankingWeights → Candidate → ℤ → List Component
  unfolding round_trip_cost_component exit_capacity_component time_component required_move_component
      fee_cost_component schedule_of breakeven_price
  components_at t w c entry =
      round_trip_cost_component divide c.report w
      ∷ exit_capacity_component divide c.report t w
      ∷ time_component divide c.report t w
      ∷ required_move_component divide (breakeven_at c entry) c.underlying_price c.call w
      ∷ fee_cost_component divide (entry_fee_at c entry) (exit_fee_at c) (capital_at c entry)
          (has_schedule (schedule_of c.fees)) w
      ∷ []

  -- `rank_opportunity` past its guard, at the price of the entry.
  unfoldable pub opportunity_at : Thresholds → RankingWeights → Candidate → ℤ → RankedOpportunity
  unfolding schedule_of breakeven_price stop_loss_loss components_at
  opportunity_at t w c entry =
      let entry_fee = entry_fee_at c entry in
      record {
        symbol = c.symbol;
        strategy = c.strategy;
        side_buy = c.side_buy;
        quantity = c.quantity;
        components = components_at t w c entry;
        entry_price = entry;
        premium_cost = entry *ℤ units_of c;
        entry_fee = entry_fee;
        capital_required = capital_at c entry;
        exit_fee_estimate = exit_fee_at c;
        round_trip_fees_estimate = both_fees entry_fee (exit_fee_at c);
        max_theoretical_loss = capital_at c entry;
        stop_loss_loss =
            stop_loss_loss divide entry (units_of c) c.stop_loss_price entry_fee
              (schedule_of c.fees);
        breakeven = breakeven_at c entry;
        breakeven_includes_entry_fees = has_amount entry_fee;
        observed_at = c.report.observation.observed_at;
        verdict = c.report.verdict;
      }

  -- `none` is the ValueError: without a price of the entry no amount is computed.
  unfoldable pub rank_opportunity :
      Thresholds → RankingWeights → Candidate → Option RankedOpportunity
  unfolding opportunity_at
  rank_opportunity t w c =
      let entry = or_zero c.report.observation.entry_fill_price in
      only_executable (entry_status c.report.observation) (opportunity_at t w c entry)

abbrev pub excluded_as : Candidate → ExclusionCode → ExcludedOpportunity
excluded_as c code = record {
  symbol = c.symbol;
  strategy = c.strategy;
  verdict = c.report.verdict;
  code = code;
}

-- `_entry_exclusion`: an order that the book does not hold is not one whose book was not seen.
unfoldable pub entry_exclusion : Candidate → Option ExclusionCode
entry_exclusion c = elim (entry_status c.report.observation) [
  | executable ↦ none
  | short_of_depth ↦ some entry_short_of_depth
  | unknown_entry ↦ some entry_unknown
]

abbrev pub is_tradable : Verdict → Bool
is_tradable tradable = true
is_tradable needs_review = false
is_tradable rejected = false

abbrev is_leg : Option ℕ → Bool
is_leg none = false
is_leg (some group) = true

-- The four gates of the loop of `rank_opportunities`; `none` lets the candidate through.
unfoldable pub gate : Candidate → Option ExclusionCode
unfolding entry_exclusion
gate c =
    if not (is_tradable c.report.verdict)
    then some screened_out
    else if is_leg c.leg_group_id
    then some multi_leg
    else if not c.side_buy
    then some sell_side
    else entry_exclusion c

unfoldable pub scores_more : RankedOpportunity → RankedOpportunity → Bool
scores_more r s = ratio_ltb (conservative_score s) (conservative_score r)

unfoldable pub covers_more : RankedOpportunity → RankedOpportunity → Bool
covers_more r s = ratio_ltb (coverage_pct s) (coverage_pct r)

unfoldable pub named_before : RankedOpportunity → RankedOpportunity → Bool
named_before r s = ltb r.symbol s.symbol

-- The key of the sort is `(-score, -coverage, symbol)`.
unfoldable pub ranks_before : RankedOpportunity → RankedOpportunity → Bool
unfolding scores_more covers_more named_before
ranks_before = then_by scores_more (then_by covers_more named_before)

abbrev pub Lists : Type 0
Lists = List RankedOpportunity × List ExcludedOpportunity

-- `ranked.append`, unless an exception was raised.
abbrev pub with_ranked : Option RankedOpportunity → Option Lists → Option Lists
with_ranked none rest = none
with_ranked (some r) none = none
with_ranked (some r) (some (rs, es)) = some (r ∷ rs, es)

-- `excluded.append`
abbrev pub with_excluded : ExcludedOpportunity → Option Lists → Option Lists
with_excluded e none = none
with_excluded e (some (rs, es)) = some (rs, e ∷ es)

-- One turn of the loop, before the rest of it.
abbrev pub judged_into :
    Candidate → Option ExclusionCode → Option RankedOpportunity → Option Lists → Option Lists
judged_into c (some code) r rest = with_excluded (excluded_as c code) rest
judged_into c none r rest = with_ranked r rest

abbrev pub result_of : RankingWeights → Option ℕ → Bool → Option Lists → Option RankingResult
result_of w evaluated_at demo none = none
result_of w evaluated_at demo (some (rs, es)) = some (record {
  ranked = sort_by ranks_before rs;
  excluded = es;
  weights = w;
  evaluated_at = evaluated_at;
  demo = demo;
})

module _ (divide : ℤ → ℤ → ℤ) where
  -- The loop: what is ranked and what is left out, each in the order of the candidates.
  unfoldable pub rank_loop : Thresholds → RankingWeights → List Candidate → Option Lists
  unfolding rank_opportunity gate
  rank_loop t w [] = some ([], [])
  rank_loop t w (c ∷ cs) = judged_into c (gate c) (rank_opportunity divide t w c) (rank_loop t w cs)

  -- `none` is the ValueError of `rank_opportunity`.
  unfoldable pub rank_opportunities :
      List Candidate → Thresholds → RankingWeights → Option ℕ → Bool → Option RankingResult
  unfolding rank_loop
  rank_opportunities cs t w evaluated_at demo = result_of w evaluated_at demo (rank_loop t w cs)
