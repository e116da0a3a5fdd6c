-- ===== src/Ranking/Informed.antt =====
-- What happens to the scores of option_signal_bot/market/opportunity_ranking.py where data is missing.
use kh_optionbaz.Prelude.{
  ◌≡◌, refl, ap, sym, ◌∙◌, Bool, true, false, Option, none, some, ℤ, Ratio, AtMost,
}
use kh_optionbaz.Fees.{FeeSchedule}
use kh_optionbaz.Tradability.{
  Thresholds, nonzero, per_order, cost_pct, counted, usable_exit_depth_ratio, round_trip_cost_pct,
}
use kh_optionbaz.Tradability.Informed.{Informs, Informs-of}
use kh_optionbaz.Ranking.{
  RankingWeights, RankedOpportunity, Candidate, lower_is_better, higher_is_better,
  round_trip_cost_component, exit_capacity_component, time_component, required_move_component,
  fee_cost_component, needed_move, fee_drag, schedule_of, components_at, capital_at, entry_fee_at,
  exit_fee_at, exit_fee_of, units_of, breakeven_at, has_schedule, rank_opportunity,
  conservative_score, score_best_case, or_zero,
}
use kh_optionbaz.Ranking.Scores.{AllForgotten-AtMost, IsForgotten, AllForgotten}
use kh_optionbaz.Ranking.Bands.{IsWeighted, components_at-IsFair, components_of}

-- The same candidate, where less is known of the market: prices and depth of the exit, the days that
-- are left, the price of the underlying. The price of the entry and the fees are the same.
pub record IsLessKnown (c d : Candidate) : Type 0 where
  pub same_order : c.quantity ≡ d.quantity
  pub same_size : c.contract_size ≡ d.contract_size
  pub same_strike : c.strike ≡ d.strike
  pub same_kind : c.call ≡ d.call
  pub same_fees : c.fees ≡ d.fees
  pub same_entry : c.report.observation.entry_fill_price ≡ d.report.observation.entry_fill_price
  pub same_quantity : c.report.observation.quantity ≡ d.report.observation.quantity
  pub exit_price : Informs c.report.observation.exit_fill_price d.report.observation.exit_fill_price
  pub exit_depth :
      Informs c.report.observation.exit_depth_within_band_contracts
        d.report.observation.exit_depth_within_band_contracts
  pub days : Informs c.report.observation.days_to_expiry d.report.observation.days_to_expiry
  pub spot : Informs c.underlying_price d.underlying_price

cost_none : (e : Option ℤ) → cost_pct e none ≡ none
cost_none none = refl
cost_none (some e) = refl

move_none : (b : Option ℤ) (call : Bool) → needed_move b none call ≡ none
move_none none call = refl
move_none (some b) call = refl

drag_none : (known : Bool) (e k : Option ℤ) → fee_drag known e none k ≡ none
drag_none true none k = refl
drag_none true (some e) k = refl
drag_none false e k = refl

exit_fee_none :
    (divide : ℤ → ℤ → ℤ) (f : Option FeeSchedule) (n : ℤ) → exit_fee_of divide f none n ≡ none
exit_fee_none divide none n = refl
exit_fee_none divide (some f) n = refl

module _ (divide : ℤ → ℤ → ℤ) (t : Thresholds) (w : RankingWeights) (c d : Candidate)
    (less : IsLessKnown c d) where
  lower_Informs :
      (a b : Option Ratio) (limit : Ratio)
      → Informs a b
      → Informs (lower_is_better divide a limit) (lower_is_better divide b limit)
  unfolding lower_is_better
  lower_Informs a b limit i = Informs-of (λ v. lower_is_better divide v limit) a b refl i

  higher_Informs :
      (a b : Option Ratio) (floor comfort : Ratio)
      → Informs a b
      → Informs (higher_is_better divide a floor comfort) (higher_is_better divide b floor comfort)
  unfolding higher_is_better
  higher_Informs a b floor comfort i =
      Informs-of (λ v. higher_is_better divide v floor comfort) a b refl i

  nonzero_Informs : (a b : Option ℤ) → Informs a b → Informs (nonzero a) (nonzero b)
  nonzero_Informs a b i = Informs-of nonzero a b refl i

  cost-IsForgotten :
      IsForgotten
        (round_trip_cost_component divide c.report w)
        (round_trip_cost_component divide d.report w)
  unfolding round_trip_cost_component round_trip_cost_pct
  cost-IsForgotten = record {
    same_weight = refl;
    informed = lower_Informs _ _ w.max_round_trip_cost_pct (
        rw less.same_entry (
          Informs-of (λ x. cost_pct (nonzero d.report.observation.entry_fill_price) x)
            (nonzero c.report.observation.exit_fill_price)
            (nonzero d.report.observation.exit_fill_price) (cost_none _)
            (nonzero_Informs _ _ less.exit_price)));
  }

  capacity-IsForgotten :
      IsForgotten
        (exit_capacity_component divide c.report t w)
        (exit_capacity_component divide d.report t w)
  unfolding exit_capacity_component usable_exit_depth_ratio
  capacity-IsForgotten = record {
    same_weight = refl;
    informed = higher_Informs _ _ _ _ (
        rw less.same_quantity
          (Informs-of (λ x. per_order x d.report.observation.quantity) _ _ refl less.exit_depth));
  }

  time-IsForgotten :
      IsForgotten (time_component divide c.report t w) (time_component divide d.report t w)
  unfolding time_component
  time-IsForgotten = record {
    same_weight = refl;
    informed = higher_Informs _ _ _ _ (Informs-of counted _ _ refl less.days);
  }

  same_units : units_of c ≡ units_of d
  same_units = rw (less.same_order, less.same_size) refl

  same_schedule : has_schedule (schedule_of c.fees) ≡ has_schedule (schedule_of d.fees)
  same_schedule = ap (λ f. has_schedule (schedule_of f)) less.same_fees

  same_fee : (entry : ℤ) → entry_fee_at divide c entry ≡ entry_fee_at divide d entry
  same_fee entry = rw (less.same_fees, same_units) refl

  same_breakeven : (entry : ℤ) → breakeven_at divide c entry ≡ breakeven_at divide d entry
  same_breakeven entry = rw (less.same_strike, less.same_kind, same_fee entry, same_units) refl

  same_capital : (entry : ℤ) → capital_at divide c entry ≡ capital_at divide d entry
  same_capital entry = rw (same_fee entry, same_units) refl

  exit_fee_Informs : Informs (exit_fee_at divide c) (exit_fee_at divide d)
  exit_fee_Informs =
      rw (less.same_fees, same_units)
        (Informs-of (λ x. exit_fee_of divide (schedule_of d.fees) x (units_of d)) _ _
          (exit_fee_none divide (schedule_of d.fees) (units_of d))
          (nonzero_Informs _ _ less.exit_price))

  move-IsForgotten :
      (entry : ℤ)
      → IsForgotten
          (required_move_component divide (breakeven_at divide c entry) c.underlying_price c.call w)
          (required_move_component divide (breakeven_at divide d entry) d.underlying_price d.call w)
  unfolding required_move_component
  move-IsForgotten entry = record {
    same_weight = refl;
    informed = lower_Informs _ _ w.max_required_move_pct (
        rw (same_breakeven entry, less.same_kind)
          (Informs-of (λ x. needed_move (nonzero (breakeven_at divide d entry)) x d.call) _ _
            (move_none _ _) (nonzero_Informs _ _ less.spot)));
  }

  fee-IsForgotten :
      (entry : ℤ)
      → IsForgotten
          (fee_cost_component divide
            (entry_fee_at divide c entry)
            (exit_fee_at divide c)
            (capital_at divide c entry)
            (has_schedule (schedule_of c.fees))
            w)
          (fee_cost_component divide
            (entry_fee_at divide d entry)
            (exit_fee_at divide d)
            (capital_at divide d entry)
            (has_schedule (schedule_of d.fees))
            w)
  unfolding fee_cost_component
  fee-IsForgotten entry = record {
    same_weight = refl;
    informed = lower_Informs _ _ w.max_fee_cost_pct (
        rw (same_capital entry, same_fee entry, same_schedule)
          (Informs-of
            (λ x.
              fee_drag (has_schedule (schedule_of d.fees)) (entry_fee_at divide d entry) x
                (capital_at divide d entry))
            _ _ (drag_none _ _ _) exit_fee_Informs));
  }

  components_forgotten :
      (entry : ℤ)
      → AllForgotten (components_at divide t w c entry) (components_at divide t w d entry)
  unfolding components_at
  components_forgotten entry = (
    cost-IsForgotten,
    (
      capacity-IsForgotten,
      (time-IsForgotten, (move-IsForgotten entry, (fee-IsForgotten entry, tt))),
    ),
  )

  -- Missing data raises nobody: where less is known of the market of a candidate whose fees and price of
  -- entry are the same, the score, which decides the rank, is at most what it is with the data, and
  -- the best case is at least what it is with the data.
  pub rank_opportunity_forgotten :
      (r s : RankedOpportunity)
      → IsWeighted w
      → rank_opportunity divide t w c ≡ some r
      → rank_opportunity divide t w d ≡ some s
      → AtMost (conservative_score r) (conservative_score s)
        × AtMost (score_best_case s) (score_best_case r)
  unfolding conservative_score score_best_case
  rank_opportunity_forgotten r s h e k =
      let entry = or_zero c.report.observation.entry_fill_price in
      let paid = ap or_zero less.same_entry in
      let first = components_of divide t w c r e in
      let second = components_of divide t w d s k ∙ ap (components_at divide t w d) (sym paid) in
      rw (first, second)
        (AllForgotten-AtMost (components_at divide t w c entry) (components_at divide t w d entry)
          (components_forgotten entry) (components_at-IsFair divide t w d entry h))
