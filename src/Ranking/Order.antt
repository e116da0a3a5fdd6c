-- ===== src/Ranking/Order.antt =====
-- The key of the sort of `rank_opportunities` (option_signal_bot/market/opportunity_ranking.py) is a
-- linear order.
use kh_optionbaz.Prelude.{
  arith, inl, inr, Bool-cases, leb_ℤ, pos, ◌<ℤ◌, Ratio, ratio_ltb, leb_ℤ→<ℤ, ratio_ltb_asym,
  ratio_ltb_trans, IsOrder, then_by-IsOrder,
}
use kh_optionbaz.Ranking.{
  RankedOpportunity, total_of, total_weight, score_of, conservative_score, coverage_pct,
  scores_more, covers_more, named_before, ranks_before,
}

-- A measure with a positive denominator orders from the largest to the smallest.
module _ (measure : RankedOpportunity → Ratio)
    (proper : (r : RankedOpportunity) → pos 0 <ℤ (measure r).den) where
  measure-IsOrder : IsOrder (λ r s. ratio_ltb (measure s) (measure r))
  measure-IsOrder = record {
    asym = λ r s h. ratio_ltb_asym (measure s) (measure r) h;
    trans = λ r s u h k.
        ratio_ltb_trans (measure u) (measure s) (measure r) (proper u) (proper s) (proper r) k h;
  }

score_proper : (r : RankedOpportunity) → pos 0 <ℤ (conservative_score r).den
unfolding conservative_score score_of
score_proper r = elim (Bool-cases (leb_ℤ (total_of r.components) (pos 0))) [
  | inl b ↦ rw b (omega arith)
  | inr b ↦ rw b (leb_ℤ→<ℤ (total_of r.components) (pos 0) b)
]

coverage_proper : (r : RankedOpportunity) → pos 0 <ℤ (coverage_pct r).den
unfolding coverage_pct
coverage_proper r = elim (Bool-cases (leb_ℤ (total_weight r) (pos 0))) [
  | inl b ↦ rw b (omega arith)
  | inr b ↦ rw b (leb_ℤ→<ℤ (total_weight r) (pos 0) b)
]

named_before-IsOrder : IsOrder named_before
unfolding named_before
named_before-IsOrder = record { asym = λ r s h. ground arith; trans = λ r s u h k. ground arith }

pub ranks_before-IsOrder : IsOrder ranks_before
unfolding ranks_before scores_more covers_more
ranks_before-IsOrder =
    then_by-IsOrder _ _ (measure-IsOrder conservative_score score_proper)
      (then_by-IsOrder _ _ (measure-IsOrder coverage_pct coverage_proper) named_before-IsOrder)
