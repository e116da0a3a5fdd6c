-- ===== src/Ranking/Types.antt =====
-- The records of option_signal_bot/market/opportunity_ranking.py: weights, components, a ranked
-- opportunity with its scores, and what is left out. A score is in millionths of a percent, so that
-- 100 is `hundred`; a weight is an integer, and the contribution `score * weight / 100` is kept in
-- hundredths of that unit, as the product. Labels, units and sentences are not modelled.
use kh_optionbaz.Prelude.{
  ℕ, Bool, true, false, not, Option, none, some, List, [], ◌∷◌, keep, sum_of, sort_by,
  if◌then◌else◌, ltb_ℤ, leb_ℤ, ℤ, pos, ◌+ℤ◌, ◌-ℤ◌, ◌*ℤ◌, Ratio, ratio,
}
use kh_optionbaz.Tradability.{Verdict}

pub record RankingWeights : Type 0 where
  pub weight_round_trip_cost : ℤ
  pub weight_exit_capacity : ℤ
  pub weight_time_to_expiry : ℤ
  pub weight_required_move : ℤ
  pub weight_fee_cost : ℤ
  pub depth_comfort_multiple : Ratio
  pub days_to_expiry_comfort : ℤ
  pub max_required_move_pct : Ratio
  pub max_round_trip_cost_pct : Ratio
  pub max_fee_cost_pct : Ratio

pub data ComponentKey : Type 0 where
  round_trip_cost exit_capacity time_to_expiry required_move fee_cost : ComponentKey

pub data Group : Type 0 where
  group_execution group_risk : Group

pub record Component : Type 0 where
  pub key : ComponentKey
  pub group : Group
  pub weight : ℤ
  pub score : Option ℤ
  pub measured : Option Ratio

abbrev pub one : ℤ
one = pos 1_000_000

abbrev pub hundred : ℤ
hundred = pos 100_000_000

abbrev pub known_score : Option ℤ → Bool
known_score none = false
known_score (some s) = true

unfoldable pub is_known : Component → Bool
is_known c = known_score c.score

abbrev pub or_zero : Option ℤ → ℤ
or_zero none = pos 0
or_zero (some s) = s

unfoldable pub contribution : Component → ℤ
contribution c = or_zero c.score *ℤ c.weight

-- The sentences `_basis` are left out.
pub record RankedOpportunity : Type 0 where
  pub symbol : ℕ
  pub strategy : ℕ
  pub side_buy : Bool
  pub quantity : ℤ
  pub components : List Component
  pub entry_price : ℤ
  pub premium_cost : ℤ
  pub entry_fee : Option ℤ
  pub capital_required : Option ℤ
  pub exit_fee_estimate : Option ℤ
  pub round_trip_fees_estimate : Option ℤ
  pub max_theoretical_loss : Option ℤ
  pub stop_loss_loss : Option ℤ
  pub breakeven : Option ℤ
  pub breakeven_includes_entry_fees : Bool
  pub observed_at : ℕ
  pub verdict : Verdict

unfoldable pub total_of : List Component → ℤ
total_of cs = sum_of (λ c. c.weight) cs

unfoldable pub known_of : List Component → ℤ
known_of cs = sum_of (λ c. c.weight) (keep is_known cs)

unfoldable pub contributed : List Component → ℤ
contributed cs = sum_of contribution cs

unfoldable pub total_weight : RankedOpportunity → ℤ
total_weight r = total_of r.components

unfoldable pub known_weight : RankedOpportunity → ℤ
known_weight r = known_of r.components

-- A quotient by the total weight, not divided out, and 0 without a weight.
abbrev pub per_total : ℤ → ℤ → Ratio
per_total amount total = if leb_ℤ total (pos 0) then ratio (pos 0) (pos 1) else ratio amount total

-- `RankedOpportunity.score`: what is not known counts 0.
unfoldable pub score_of : List Component → Ratio
score_of cs = per_total (contributed cs) (total_of cs)

unfoldable pub conservative_score : RankedOpportunity → Ratio
conservative_score r = score_of r.components

-- `RankedOpportunity.score_best_case`: what is not known counts 100.
unfoldable pub best_of : List Component → Ratio
best_of cs =
    let unknown = total_of cs -ℤ known_of cs in
    per_total (contributed cs +ℤ hundred *ℤ unknown) (total_of cs)

unfoldable pub score_best_case : RankedOpportunity → Ratio
score_best_case r = best_of r.components

unfoldable pub coverage_pct : RankedOpportunity → Ratio
coverage_pct r =
    if leb_ℤ (total_weight r) (pos 0)
    then ratio (pos 100) (pos 1)
    else ratio (known_weight r *ℤ pos 100) (total_weight r)

abbrev first_two : List Component → List Component
first_two (c ∷ d ∷ cs) = c ∷ d ∷ []
first_two cs = cs

abbrev gives_more : Component → Component → Bool
gives_more c d = ltb_ℤ (contribution d) (contribution c)

-- The two known components that give most.
unfoldable pub strengths : RankedOpportunity → List Component
strengths r = first_two (sort_by gives_more (keep is_known r.components))

-- `(100 - score) * weight`: what a component has lost.
unfoldable pub lost : Component → ℤ
lost c = (hundred -ℤ or_zero c.score) *ℤ c.weight

-- `max(..., key=lost)`: the first of those that have lost most.
abbrev pub worst_from : Component → List Component → Component
worst_from worst [] = worst
worst_from worst (c ∷ cs) = worst_from (if ltb_ℤ (lost worst) (lost c) then c else worst) cs

abbrev pub worst_of : List Component → Option Component
worst_of [] = none
worst_of (c ∷ cs) = some (worst_from c cs)

unfoldable pub weakness : RankedOpportunity → Option Component
weakness r = worst_of (keep is_known r.components)

unfoldable pub unknown_components : RankedOpportunity → List Component
unknown_components r = keep (λ c. not (is_known c)) r.components

pub data ExclusionCode : Type 0 where
  screened_out multi_leg sell_side entry_short_of_depth entry_unknown : ExclusionCode

pub record ExcludedOpportunity : Type 0 where
  pub symbol : ℕ
  pub strategy : ℕ
  pub verdict : Verdict
  pub code : ExclusionCode

pub record RankingResult : Type 0 where
  pub ranked : List RankedOpportunity
  pub excluded : List ExcludedOpportunity
  pub weights : RankingWeights
  pub evaluated_at : Option ℕ
  pub demo : Bool
