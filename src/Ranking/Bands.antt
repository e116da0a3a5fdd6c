-- ===== src/Ranking/Bands.antt =====
-- The components of a ranked opportunity (option_signal_bot/market/opportunity_ranking.py) are scored
-- between 0 and 100, and so is the whole.
use mathlib.Core.Option.{some-injective}
use mathlib.Core.Path.{sym}
use kh_optionbaz.Prelude.{
  ◌≡◌, ap, arith, inl, inr, Bool, Bool-cases, Option, none, some, All, leb_ℤ, ratio_leb, ℤ, pos,
  ◌≤ℤ◌, ◌*ℤ◌, ◌-ℤ◌, min_ℤ, *ℤ_parts, Ratio, max_ℤ_bounds, min_ℤ_bounds,
}
use kh_optionbaz.Tradability.{
  Thresholds, EntryStatus, executable, short_of_depth, unknown_entry, entry_status,
  TradabilityReport, nonzero, counted, usable_exit_depth_ratio, round_trip_cost_pct,
}
use kh_optionbaz.Ranking.{
  RankingWeights, RankedOpportunity, Candidate, one, clamp01, lower_is_better, higher_is_better,
  round_trip_cost_component, exit_capacity_component, time_component, required_move_component,
  fee_cost_component, needed_move, fee_drag, schedule_of, components_at, capital_at, entry_fee_at,
  exit_fee_at, breakeven_at, has_schedule, only_executable, opportunity_at, rank_opportunity,
  conservative_score, score_best_case, or_zero,
}
use kh_optionbaz.Ranking.Scores.{IsPercent, IsFair, IsBand, scores-IsBand}

-- Weights that are not negative, as the settings ask for.
pub record IsWeighted (w : RankingWeights) : Type 0 where
  pub round_trip_cost : pos 0 ≤ℤ w.weight_round_trip_cost
  pub exit_capacity : pos 0 ≤ℤ w.weight_exit_capacity
  pub time_to_expiry : pos 0 ≤ℤ w.weight_time_to_expiry
  pub required_move : pos 0 ≤ℤ w.weight_required_move
  pub fee_cost : pos 0 ≤ℤ w.weight_fee_cost

clamp01_bounds : (v : ℤ) → (pos 0 ≤ℤ clamp01 v) × (clamp01 v ≤ℤ one)
unfolding clamp01
clamp01_bounds v = omega (arith, max_ℤ_bounds (pos 0) (min_ℤ one v), min_ℤ_bounds one v)

percent_of : (v : ℤ) → pos 0 ≤ℤ v → v ≤ℤ one → IsPercent (some (v *ℤ pos 100))
percent_of v h k = (omega (arith, *ℤ_parts v (pos 100)), omega (arith, *ℤ_parts v (pos 100)))

module _ (divide : ℤ → ℤ → ℤ) where
  lower_is_better-IsPercent :
      (value : Option Ratio) (limit : Ratio) → IsPercent (lower_is_better divide value limit)
  unfolding lower_is_better
  lower_is_better-IsPercent none limit = tt
  lower_is_better-IsPercent (some value) limit = elim (Bool-cases (leb_ℤ limit.num (pos 0))) [
    | inl b ↦ rw b tt
    | inr b ↦ rw b (percent_of _ (clamp01_bounds _).0 (clamp01_bounds _).1)
  ]

  higher_is_better-IsPercent :
      (value : Option Ratio) (floor comfort : Ratio)
      → IsPercent (higher_is_better divide value floor comfort)
  unfolding higher_is_better
  higher_is_better-IsPercent none floor comfort = tt
  higher_is_better-IsPercent (some value) floor comfort =
      elim (Bool-cases (leb_ℤ (comfort.num *ℤ floor.den -ℤ floor.num *ℤ comfort.den) (pos 0))) [
        | inl b ↦ elim (Bool-cases (ratio_leb floor value)) [
          | inl k ↦ rw (b, k) (percent_of one (omega arith) (omega arith))
          | inr k ↦ rw (b, k) (percent_of (pos 0) (omega arith) (omega arith))
        ]
        | inr b ↦ rw b (percent_of _ (clamp01_bounds _).0 (clamp01_bounds _).1)
      ]

  module _ (w : RankingWeights) (h : IsWeighted w) where
    round_trip_cost_component-IsFair :
        (report : TradabilityReport) → IsFair (round_trip_cost_component divide report w)
    unfolding round_trip_cost_component
    round_trip_cost_component-IsFair report = (
      h.round_trip_cost,
      lower_is_better-IsPercent (round_trip_cost_pct report.observation) w.max_round_trip_cost_pct,
    )

    exit_capacity_component-IsFair :
        (report : TradabilityReport) (t : Thresholds)
        → IsFair (exit_capacity_component divide report t w)
    unfolding exit_capacity_component
    exit_capacity_component-IsFair report t = (
      h.exit_capacity,
      higher_is_better-IsPercent (usable_exit_depth_ratio report.observation) _ _,
    )

    time_component-IsFair :
        (report : TradabilityReport) (t : Thresholds) → IsFair (time_component divide report t w)
    unfolding time_component
    time_component-IsFair report t = (
      h.time_to_expiry,
      higher_is_better-IsPercent (counted report.observation.days_to_expiry) _ _,
    )

    required_move_component-IsFair :
        (breakeven spot : Option ℤ) (call : Bool)
        → IsFair (required_move_component divide breakeven spot call w)
    unfolding required_move_component
    required_move_component-IsFair breakeven spot call = (
      h.required_move,
      lower_is_better-IsPercent (needed_move (nonzero breakeven) (nonzero spot) call)
          w.max_required_move_pct,
    )

    fee_cost_component-IsFair :
        (entry exit capital : Option ℤ) (known : Bool)
        → IsFair (fee_cost_component divide entry exit capital known w)
    unfolding fee_cost_component
    fee_cost_component-IsFair entry exit capital known = (
      h.fee_cost,
      lower_is_better-IsPercent (fee_drag known entry exit capital) w.max_fee_cost_pct,
    )

  pub components_at-IsFair :
      (t : Thresholds) (w : RankingWeights) (c : Candidate) (entry : ℤ)
      → IsWeighted w
      → All IsFair (components_at divide t w c entry)
  unfolding components_at
  components_at-IsFair t w c entry h = (
    round_trip_cost_component-IsFair w h c.report,
    (
      exit_capacity_component-IsFair w h c.report t,
      (
        time_component-IsFair w h c.report t,
        (
          required_move_component-IsFair w h (breakeven_at divide c entry) c.underlying_price
              c.call,
          (
            fee_cost_component-IsFair w h (entry_fee_at divide c entry) (exit_fee_at divide c)
                (capital_at divide c entry) (has_schedule (schedule_of c.fees)),
            tt,
          ),
        ),
      ),
    ),
  )

  -- Only an executable entry is ranked, at its price.
  pub components_of :
      (t : Thresholds) (w : RankingWeights) (c : Candidate) (r : RankedOpportunity)
      → rank_opportunity divide t w c ≡ some r
      → r.components ≡ components_at divide t w c (or_zero c.report.observation.entry_fill_price)
  unfolding rank_opportunity opportunity_at
  components_of t w c r e = guarded (entry_status c.report.observation) e
    where
      guarded :
          (s : EntryStatus)
          → only_executable s
              (opportunity_at divide t w c (or_zero c.report.observation.entry_fill_price))
            ≡ some r
          → r.components
            ≡ components_at divide t w c (or_zero c.report.observation.entry_fill_price)
      guarded executable k =
          ap (λ (o : RankedOpportunity). o.components) (sym (some-injective _ _ k))
      guarded short_of_depth k = absurd cc
      guarded unknown_entry k = absurd cc

  -- Whatever the division of floats gives, and for weights that are not negative, the score of a ranked
  -- opportunity lies between 0 and 100 and does not exceed its best case, which is at most 100 too.
  pub rank_opportunity-IsBand :
      (t : Thresholds) (w : RankingWeights) (c : Candidate) (r : RankedOpportunity)
      → IsWeighted w
      → rank_opportunity divide t w c ≡ some r
      → IsBand (conservative_score r) (score_best_case r)
  unfolding conservative_score score_best_case
  rank_opportunity-IsBand t w c r h e =
      let entry = or_zero c.report.observation.entry_fill_price in
      scores-IsBand r.components (rw (components_of t w c r e) (components_at-IsFair t w c entry h))
