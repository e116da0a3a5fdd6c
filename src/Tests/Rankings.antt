-- ===== src/Tests/Rankings.antt =====
-- The theorems on the ranking and the screening at concrete inputs.
use mathlib.Core.List.{Perm}
use kh_optionbaz.Prelude.{
  ◌≡◌, refl, arith, inl, inr, Bool, true, false, Option, none, some, List, [], ◌∷◌, ℤ, pos, ◌<ℤ◌,
  ◌+ℤ◌, ◌-ℤ◌, ◌*ℤ◌, max_ℤ, min_ℤ, abs, floor_div, AtMost, IsSorted, ratio,
}
use kh_optionbaz.Tests.{quotient, rates, level}
use kh_optionbaz.Tests.Trading.{seen_at, sessions, limits}
use kh_optionbaz.Fees.{FeeSchedule, rates_known, is_zero, entry_cost, exit_cost}
use kh_optionbaz.OrderBook.{OrderBook, fill_levels, fill_loop, fill_step, is_real}
use kh_optionbaz.Tradability.{
  evaluate, TradabilityReport, verdict_of, checks_of, make_check, relative_spread_pct,
  exit_depth_ratio, exit_slippage_pct, continuity_check, round_trip_cost_pct,
  usable_exit_depth_ratio, entry_status,
}
use kh_optionbaz.Ranking.{
  RankingWeights, RankedOpportunity, RankingResult, Candidate, rank_opportunity, rank_opportunities,
  opportunity_at, conservative_score, score_best_case, ranks_before, scores_more, score_of,
  total_of, contributed, contribution, components_at, schedule_of, breakeven_price, clamp01,
  lower_is_better, higher_is_better, round_trip_cost_component, exit_capacity_component,
  time_component, required_move_component, fee_cost_component,
}
use kh_optionbaz.Ranking.Gates.{IsSplit, rank_opportunities-IsSplit}
use kh_optionbaz.Ranking.Scores.{IsBand}
use kh_optionbaz.Ranking.Bands.{IsWeighted, rank_opportunity-IsBand}
use kh_optionbaz.Ranking.Informed.{IsLessKnown, rank_opportunity_forgotten}
use kh_optionbaz.Screener.{Sources, ListedContract, Moment, days_left, trades_seen, evaluate_symbol}
use kh_optionbaz.Screener.Exits.{CanExit, evaluate_symbol-CanExit}

abbrev weights : RankingWeights
weights = record {
  weight_round_trip_cost = pos 30;
  weight_exit_capacity = pos 20;
  weight_time_to_expiry = pos 15;
  weight_required_move = pos 25;
  weight_fee_cost = pos 10;
  depth_comfort_multiple = ratio (pos 3) (pos 1);
  days_to_expiry_comfort = pos 30;
  max_required_move_pct = ratio (pos 25) (pos 1);
  max_round_trip_cost_pct = ratio (pos 30) (pos 1);
  max_fee_cost_pct = ratio (pos 5) (pos 1);
}

abbrev weighted : IsWeighted weights
weighted = record {
  round_trip_cost = omega arith;
  exit_capacity = omega arith;
  time_to_expiry = omega arith;
  required_move = omega arith;
  fee_cost = omega arith;
}

-- A call at 1000 on an underlying at 1050 or at a price that is not known.
abbrev candidate : Option ℤ → Bool → Candidate
candidate spot buys = record {
  symbol = 7;
  strategy = 1;
  side_buy = buys;
  quantity = pos 10;
  report = evaluate (seen_at (some (pos 20))) sessions (limits (pos 100));
  leg_group_id = none;
  call = true;
  strike = pos 1000;
  contract_size = some (pos 100);
  underlying_price = spot;
  stop_loss_price = some (pos 60);
  fees = some rates;
}

-- One purchase and one sale.
rank_opportunities-IsSplit_example :
    (result : RankingResult) × (rank_opportunities quotient
        (candidate none true ∷ candidate none false ∷ [])
        (limits (pos 100))
        weights
        (some 1)
        false
      ≡ some result)
    × IsSorted ranks_before result.ranked
    × ((rs : List RankedOpportunity) × Perm result.ranked rs
        × IsSplit quotient
            (limits (pos 100))
            weights
            (candidate none true ∷ candidate none false ∷ [])
            rs
            result.excluded)
rank_opportunities-IsSplit_example =
    rank_opportunities-IsSplit quotient (limits (pos 100)) weights
      (candidate none true ∷ candidate none false ∷ []) (some 1) false

abbrev ranked_at : Option ℤ → RankedOpportunity
ranked_at spot = opportunity_at quotient (limits (pos 100)) weights (candidate spot true) (pos 102)

rank_opportunity-IsBand_example :
    IsBand (conservative_score (ranked_at none)) (score_best_case (ranked_at none))
unfolding rank_opportunity evaluate entry_status
rank_opportunity-IsBand_example =
    rank_opportunity-IsBand quotient (limits (pos 100)) weights (candidate none true)
      (ranked_at none) weighted refl

abbrev without_spot : IsLessKnown (candidate none true) (candidate (some (pos 1050)) true)
without_spot = record {
  same_order = refl;
  same_size = refl;
  same_strike = refl;
  same_kind = refl;
  same_fees = refl;
  same_entry = refl;
  same_quantity = refl;
  exit_price = inr refl;
  exit_depth = inr refl;
  days = inr refl;
  spot = inl refl;
}

rank_opportunity_forgotten_example :
    AtMost (conservative_score (ranked_at none)) (conservative_score (ranked_at (some (pos 1050))))
    × AtMost (score_best_case (ranked_at (some (pos 1050)))) (score_best_case (ranked_at none))
unfolding rank_opportunity evaluate entry_status
rank_opportunity_forgotten_example =
    rank_opportunity_forgotten quotient (limits (pos 100)) weights (candidate none true)
      (candidate (some (pos 1050)) true) without_spot (ranked_at none) (ranked_at (some (pos 1050)))
      weighted refl refl

-- A book with 30 contracts on both sides, and a contract on it whose history is known.
abbrev thick : OrderBook
thick = record {
  symbol = 7;
  bids = level (pos 98) (pos 30) ∷ [];
  asks = level (pos 102) (pos 30) ∷ [];
}

abbrev listed : ListedContract
listed = record {
  symbol = 7;
  ins_code = some 3;
  bid = some (pos 95);
  ask = some (pos 100);
  bid_quantity = some (pos 10);
  ask_quantity = some (pos 10);
  open_interest = some (pos 400);
  trade_count = some (pos 25);
  trades_today = none;
  expiry = some 120;
  source_time = none;
}

abbrev pub sources : Sources
sources = record {
  resolve_contract = λ symbol. some listed;
  try_get_order_book = some (λ ins_code symbol. some thick);
  cache_age_seconds = some (λ ins_code. some (ratio (pos 30) (pos 1)));
  stats_for = some (λ ins_code. some sessions);
}

abbrev pub now : Moment
now = record { stamp = 1; date = 100 }

abbrev report : TradabilityReport
report = evaluate_of (evaluate_symbol quotient sources (limits (pos 100)) 7 true (pos 10) now)
  where
    evaluate_of : Option TradabilityReport → TradabilityReport
    evaluate_of none = evaluate (seen_at none) sessions (limits (pos 100))
    evaluate_of (some r) = r

evaluate_symbol-CanExit_example :
    (c : ListedContract) × (sources.resolve_contract 7 ≡ some c)
    × (pos 0 <ℤ pos 10)
    × CanExit quotient sources c true (pos 10)
unfolding evaluate_symbol evaluate verdict_of checks_of make_check relative_spread_pct
    exit_depth_ratio exit_slippage_pct continuity_check max_ℤ ◌+ℤ◌ ◌-ℤ◌ ◌*ℤ◌ fill_levels fill_loop
    fill_step is_real floor_div min_ℤ abs days_left trades_seen
evaluate_symbol-CanExit_example =
    evaluate_symbol-CanExit quotient sources (limits (pos 100)) 7 true (pos 10) now report refl refl

-- Fees of 6 % of the amount each way.
abbrev dear_rates : FeeSchedule
dear_rates = record {
  buy_rate = pos 60000;
  sell_rate = pos 60000;
  sell_tax_rate = pos 0;
  per_order = pos 0;
  declared = true;
}

abbrev ranked_with : Option FeeSchedule → RankedOpportunity
ranked_with fees =
    opportunity_at quotient (limits (pos 100)) weights
      (record (candidate (some (pos 1050)) true) { fees = fees }) (pos 102)

-- The break-even of a candidate whose fees are not known leaves them out, so that it ranks before the
-- same one with such fees.
unknown_fees_rank_first : scores_more (ranked_with none) (ranked_with (some dear_rates)) ≡ true
unfolding scores_more conservative_score score_of total_of contributed contribution opportunity_at
    components_at schedule_of rates_known is_zero entry_cost exit_cost breakeven_price clamp01
    lower_is_better higher_is_better round_trip_cost_component exit_capacity_component
    time_component required_move_component fee_cost_component round_trip_cost_pct
    usable_exit_depth_ratio evaluate abs max_ℤ min_ℤ ◌*ℤ◌ ◌+ℤ◌ ◌-ℤ◌ floor_div
unknown_fees_rank_first = refl
