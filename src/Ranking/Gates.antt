-- ===== src/Ranking/Gates.antt =====
-- The gates of `rank_opportunities` (option_signal_bot/market/opportunity_ranking.py): who is ranked,
-- and who is left out with which code.
use mathlib.Core.List.{Perm}
use mathlib.Core.Path.{subst, sym}
use kh_optionbaz.Prelude.{
  ℕ, ◌≡◌, ◌≢◌, refl, ap, inl, inr, Bool, true, false, Bool-cases, Option, none, some, Option-cases,
  List, [], ◌∷◌, ℤ, sort_by-perm, sort_by-IsSorted, IsSorted,
}
use kh_optionbaz.Tradability.{
  Thresholds, Verdict, tradable, needs_review, rejected, EntryStatus, executable, short_of_depth,
  unknown_entry, entry_status,
}
use kh_optionbaz.Ranking.{
  RankingWeights, RankingResult, RankedOpportunity, ExcludedOpportunity, ExclusionCode,
  screened_out, multi_leg, sell_side, entry_short_of_depth, entry_unknown, Candidate, excluded_as,
  gate, entry_exclusion, is_tradable, rank_opportunity, opportunity_at, rank_loop,
  rank_opportunities, ranks_before, or_zero, only_executable, result_of,
}
use kh_optionbaz.Ranking.Order.{ranks_before-IsOrder}

-- A candidate for the ranking: the purchase of a single option that can be traded and entered.
pub record IsOpen (c : Candidate) : Type 0 where
  pub screened : c.report.verdict ≡ tradable
  pub single : c.leg_group_id ≡ none
  pub buys : c.side_buy ≡ true
  pub enterable : entry_status c.report.observation ≡ executable

-- Why another one is left out; the first reason counts.
pub data IsClosed (c : Candidate) : ExclusionCode → Type 0 where
  not_tradable : c.report.verdict ≢ tradable → IsClosed c screened_out
  leg_of :
      (group : ℕ) → c.report.verdict ≡ tradable → c.leg_group_id ≡ some group → IsClosed c multi_leg
  sells :
      c.report.verdict ≡ tradable
      → c.leg_group_id ≡ none
      → c.side_buy ≡ false
      → IsClosed c sell_side
  too_thin :
      c.report.verdict ≡ tradable
      → c.leg_group_id ≡ none
      → c.side_buy ≡ true
      → entry_status c.report.observation ≡ short_of_depth
      → IsClosed c entry_short_of_depth
  not_seen :
      c.report.verdict ≡ tradable
      → c.leg_group_id ≡ none
      → c.side_buy ≡ true
      → entry_status c.report.observation ≡ unknown_entry
      → IsClosed c entry_unknown

-- What the gates say of a candidate.
abbrev Judged : Candidate → Option ExclusionCode → Type 0
Judged c none = IsOpen c
Judged c (some code) = IsClosed c code

tradable-only : (v : Verdict) → is_tradable v ≡ false → v ≢ tradable
tradable-only v h e = absurd (cc (rw e at h))

tradable-is : (v : Verdict) → is_tradable v ≡ true → v ≡ tradable
tradable-is tradable h = refl
tradable-is needs_review h = absurd cc
tradable-is rejected h = absurd cc

status-cases :
    (c : Candidate)
    → c.report.verdict ≡ tradable
    → c.leg_group_id ≡ none
    → c.side_buy ≡ true
    → (s : EntryStatus) → entry_status c.report.observation ≡ s
    → Judged c (entry_exclusion c)
unfolding entry_exclusion
status-cases c v g b executable e =
    rw (e, Judged) (record { screened = v; single = g; buys = b; enterable = e })
status-cases c v g b short_of_depth e = rw (e, Judged) (too_thin v g b e)
status-cases c v g b unknown_entry e = rw (e, Judged) (not_seen v g b e)

-- The first three gates let the candidate through.
gate_open :
    (c : Candidate)
    → is_tradable c.report.verdict ≡ true
    → c.leg_group_id ≡ none
    → c.side_buy ≡ true
    → gate c ≡ entry_exclusion c
unfolding gate
gate_open c b g s = simp (b, g, s)

gate_leg :
    (c : Candidate) (group : ℕ)
    → is_tradable c.report.verdict ≡ true
    → c.leg_group_id ≡ some group
    → gate c ≡ some multi_leg
unfolding gate
gate_leg c group b g = simp (b, g)

gate_sells :
    (c : Candidate)
    → is_tradable c.report.verdict ≡ true
    → c.leg_group_id ≡ none
    → c.side_buy ≡ false
    → gate c ≡ some sell_side
unfolding gate
gate_sells c b g s = simp (b, g, s)

gate-Judged : (c : Candidate) → Judged c (gate c)
unfolding gate
gate-Judged c = elim (Bool-cases (is_tradable c.report.verdict)) [
  | inr b ↦ rw b (not_tradable (tradable-only _ b))
  | inl b ↦
      let v = tradable-is _ b in
      elim (Option-cases c.leg_group_id) [
        | inr (group, g) ↦ subst (Judged c) (sym (gate_leg c group b g)) (leg_of group v g)
        | inl g ↦ elim (Bool-cases c.side_buy) [
          | inr s ↦ subst (Judged c) (sym (gate_sells c b g s)) (sells v g s)
          | inl s ↦
              subst (Judged c) (sym (gate_open c b g s))
                (status-cases c v g s (entry_status c.report.observation) refl)
        ]
      ]
]

module _ (divide : ℤ → ℤ → ℤ) (t : Thresholds) (w : RankingWeights) where
  -- The candidates of a pass, shared out in their order.
  pub data IsSplit
      : List Candidate → List RankedOpportunity → List ExcludedOpportunity → Type 0 where
    nobody : IsSplit [] [] []
    enters :
        {cs : List Candidate} {rs : List RankedOpportunity} {es : List ExcludedOpportunity}
        (c : Candidate) (r : RankedOpportunity)
        → IsOpen c
        → rank_opportunity divide t w c ≡ some r
        → IsSplit cs rs es
        → IsSplit (c ∷ cs) (r ∷ rs) es
    leaves :
        {cs : List Candidate} {rs : List RankedOpportunity} {es : List ExcludedOpportunity}
        (c : Candidate) (code : ExclusionCode)
        → IsClosed c code
        → IsSplit cs rs es
        → IsSplit (c ∷ cs) rs (excluded_as c code ∷ es)

  opened :
      (c : Candidate)
      → IsOpen c
      → (r : RankedOpportunity) × (rank_opportunity divide t w c ≡ some r)
  unfolding rank_opportunity
  opened c o =
      let r = opportunity_at divide t w c (or_zero c.report.observation.entry_fill_price) in
      (r, ap (λ s. only_executable s r) o.enterable)

  abbrev Splits : List Candidate → Type 0
  Splits cs =
      (rs : List RankedOpportunity) × (es : List ExcludedOpportunity) × (rank_loop divide t w cs
        ≡ some (rs, es))
      × IsSplit cs rs es

  rank_loop-IsSplit : (cs : List Candidate) → Splits cs
  unfolding rank_loop
  rank_loop-IsSplit [] = ([], [], refl, nobody)
  rank_loop-IsSplit (c ∷ cs) =
      let (rs, es, e, s) = rank_loop-IsSplit cs in
      elim (Option-cases (gate c)) [
        | inr (code, g) ↦
            let closed = subst (Judged c) g (gate-Judged c) in
            (rs, excluded_as c code ∷ es, rw (g, e) refl, leaves c code closed s)
        | inl g ↦
            let open_one = subst (Judged c) g (gate-Judged c) in
            let (r, k) = opened c open_one in
            (r ∷ rs, es, rw (g, k, e) refl, enters c r open_one k s)
      ]

  -- A pass over any candidates raises nothing. Each candidate is either ranked, exactly when it is the
  -- purchase of a single option that is tradable and whose entry can be executed, or left out with
  -- the code of the first gate that it fails; nobody is lost or repeated. The ranked ones are in the
  -- order of the score, then the coverage, then the symbol.
  pub rank_opportunities-IsSplit :
      (cs : List Candidate) (at : Option ℕ) (demo : Bool)
      → (result : RankingResult) × (rank_opportunities divide cs t w at demo ≡ some result)
        × IsSorted ranks_before result.ranked
        × ((rs : List RankedOpportunity) × Perm result.ranked rs × IsSplit cs rs result.excluded)
  unfolding rank_opportunities
  rank_opportunities-IsSplit cs at demo =
      let (rs, es, e, s) = rank_loop-IsSplit cs in
      let order = ranks_before-IsOrder in
      (
        _,
        ap (result_of w at demo) e,
        sort_by-IsSorted ranks_before order.asym order.trans rs,
        (rs, sort_by-perm ranks_before rs, s),
      )
