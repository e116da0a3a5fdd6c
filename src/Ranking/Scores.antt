-- ===== src/Ranking/Scores.antt =====
-- The two scores of option_signal_bot/market/opportunity_ranking.py, over any list of components: the
-- cautious one and the best case.
use kh_optionbaz.Prelude.{
  ◌≡◌, refl, arith, inl, inr, Bool-cases, Option, none, some, List, [], ◌∷◌, All, sum_of, leb_ℤ, ℤ,
  pos, ◌≤ℤ◌, ◌+ℤ◌, ◌-ℤ◌, ◌*ℤ◌, *ℤ_parts, *ℤ_mono, *ℤ_nonneg, zero-*ℤ, parts_eq, int_laws, Ratio,
  AtMost, leb_ℤ→<ℤ, if◌then◌else◌,
}
use kh_optionbaz.Tradability.{whole}
use kh_optionbaz.Tradability.Informed.{Informs}
use kh_optionbaz.Ranking.{
  Component, hundred, is_known, known_score, per_total, or_zero, contribution, total_of, known_of,
  contributed, score_of, best_of,
}

-- A score from 0 to 100, where it is known.
abbrev pub IsPercent : Option ℤ → Type 0
IsPercent none = Unit
IsPercent (some s) = (pos 0 ≤ℤ s) × (s ≤ℤ hundred)

abbrev pub IsFair : Component → Type 0
IsFair c = (pos 0 ≤ℤ c.weight) × IsPercent c.score

-- What a component gives at best.
abbrev or_hundred : Option ℤ → ℤ
or_hundred none = hundred
or_hundred (some s) = s

best_contribution : Component → ℤ
best_contribution c = or_hundred c.score *ℤ c.weight

abbrev known_weight_of : Component → ℤ
known_weight_of c = if is_known c then c.weight else pos 0

known_cons :
    (c : Component) (cs : List Component) → known_of (c ∷ cs) ≡ known_weight_of c +ℤ known_of cs
unfolding known_of
known_cons c cs = elim (Bool-cases (is_known c)) [
  | inl b ↦ rw b refl
  | inr b ↦ rw b (omega int_laws)
]

-- What a component may still gain.
component_gap :
    (c : Component)
    → best_contribution c ≡ contribution c +ℤ hundred *ℤ (c.weight -ℤ known_weight_of c)
unfolding best_contribution contribution is_known
component_gap c = gap c.score
  where
    gap :
        (s : Option ℤ)
        → or_hundred s *ℤ c.weight
          ≡ or_zero s *ℤ c.weight
            +ℤ hundred *ℤ (c.weight -ℤ (if known_score s then c.weight else pos 0))
    gap none = omega (
      int_laws,
      *ℤ_parts hundred c.weight,
      *ℤ_parts hundred (c.weight -ℤ pos 0),
      parts_eq (zero-*ℤ c.weight),
    )
    gap (some s) = omega (int_laws, *ℤ_parts hundred (c.weight -ℤ c.weight))

none_known : known_of [] ≡ pos 0
unfolding known_of
none_known = refl

-- The best case is the sum of the best cases.
best_sum :
    (cs : List Component)
    → sum_of best_contribution cs ≡ contributed cs +ℤ hundred *ℤ (total_of cs -ℤ known_of cs)
unfolding contributed total_of
best_sum [] = omega (int_laws, *ℤ_parts hundred (pos 0 -ℤ known_of []), parts_eq none_known)
best_sum (c ∷ cs) = omega (
  int_laws,
  parts_eq (best_sum cs),
  parts_eq (component_gap c),
  parts_eq (known_cons c cs),
  *ℤ_parts hundred (c.weight -ℤ known_weight_of c),
  *ℤ_parts hundred (total_of cs -ℤ known_of cs),
  *ℤ_parts hundred (c.weight +ℤ total_of cs -ℤ known_of (c ∷ cs)),
)

-- Sums of two measures of the same list.
sum_mono :
    (f g : Component → ℤ) (P : Component → Type 0)
    → ((c : Component) → P c → f c ≤ℤ g c)
    → (cs : List Component) → All P cs
    → sum_of f cs ≤ℤ sum_of g cs
sum_mono f g P h [] ps = omega arith
sum_mono f g P h (c ∷ cs) ps = omega (int_laws, h c ps.0, sum_mono f g P h cs ps.1)

contribution_nonneg : (c : Component) → IsFair c → pos 0 ≤ℤ contribution c
unfolding contribution
contribution_nonneg c f = by_score c.score f.1
  where
    by_score : (s : Option ℤ) → IsPercent s → pos 0 ≤ℤ or_zero s *ℤ c.weight
    by_score none p = *ℤ_nonneg (pos 0) c.weight (omega arith) f.0
    by_score (some s) p = *ℤ_nonneg s c.weight p.0 f.0

best_contribution_above : (c : Component) → IsFair c → contribution c ≤ℤ best_contribution c
unfolding contribution best_contribution
best_contribution_above c f = by_score c.score f.1
  where
    by_score : (s : Option ℤ) → IsPercent s → or_zero s *ℤ c.weight ≤ℤ or_hundred s *ℤ c.weight
    by_score none p = *ℤ_mono (pos 0) hundred c.weight (omega arith) f.0
    by_score (some s) p = omega arith

best_contribution_below : (c : Component) → IsFair c → best_contribution c ≤ℤ hundred *ℤ c.weight
unfolding best_contribution
best_contribution_below c f = by_score c.score f.1
  where
    by_score : (s : Option ℤ) → IsPercent s → or_hundred s *ℤ c.weight ≤ℤ hundred *ℤ c.weight
    by_score none p = omega arith
    by_score (some s) p = *ℤ_mono s hundred c.weight p.1 f.0

sum_hundred : (cs : List Component) → sum_of (λ c. hundred *ℤ c.weight) cs ≡ hundred *ℤ total_of cs
unfolding total_of
sum_hundred [] = omega (int_laws, *ℤ_parts hundred (pos 0))
sum_hundred (c ∷ cs) = omega (
  int_laws,
  parts_eq (sum_hundred cs),
  *ℤ_parts hundred c.weight,
  *ℤ_parts hundred (total_of cs),
  *ℤ_parts hundred (c.weight +ℤ total_of cs),
)

per_total_mono : (x y total : ℤ) → x ≤ℤ y → AtMost (per_total x total) (per_total y total)
per_total_mono x y total h = elim (Bool-cases (leb_ℤ total (pos 0))) [
  | inl b ↦ rw b (omega arith)
  | inr b ↦ rw b (*ℤ_mono x y total h (omega (arith, leb_ℤ→<ℤ total (pos 0) b)))
]

-- A score and its best case: from 0 to 100, in this order.
pub record IsBand (low high : Ratio) : Type 0 where
  pub from_zero : AtMost (whole (pos 0)) low
  pub in_order : AtMost low high
  pub to_hundred : AtMost high (whole hundred)

to_hundred_of : (x total : ℤ) → x ≤ℤ hundred *ℤ total → AtMost (per_total x total) (whole hundred)
unfolding ◌*ℤ◌
to_hundred_of x total h = elim (Bool-cases (leb_ℤ total (pos 0))) [
  | inl b ↦ rw b (omega arith)
  | inr b ↦ rw b (omega (arith, h, *ℤ_parts x (pos 1)))
]

from_zero_of : (x total : ℤ) → pos 0 ≤ℤ x → AtMost (whole (pos 0)) (per_total x total)
from_zero_of x total h = elim (Bool-cases (leb_ℤ total (pos 0))) [
  | inl b ↦ rw b (omega arith)
  | inr b ↦ rw b (omega (arith, h, *ℤ_parts x (pos 1), *ℤ_parts (pos 0) total))
]

nonneg_of : (cs : List Component) → All IsFair cs → pos 0 ≤ℤ contributed cs
unfolding contributed
nonneg_of [] fair = omega arith
nonneg_of (c ∷ cs) fair = omega (int_laws, contribution_nonneg c fair.0, nonneg_of cs fair.1)

pub scores-IsBand : (cs : List Component) → All IsFair cs → IsBand (score_of cs) (best_of cs)
unfolding score_of best_of contributed
scores-IsBand cs fair = record {
  from_zero = from_zero_of (contributed cs) (total_of cs) (nonneg_of cs fair);
  in_order = per_total_mono (contributed cs) _ (total_of cs) (
      omega (
        arith,
        sum_mono contribution best_contribution IsFair best_contribution_above cs fair,
        parts_eq (best_sum cs),
      ));
  to_hundred = to_hundred_of _ (total_of cs) (
      omega (
        arith,
        sum_mono best_contribution (λ c. hundred *ℤ c.weight) IsFair best_contribution_below cs
            fair,
        parts_eq (best_sum cs),
        parts_eq (sum_hundred cs),
      ));
}

-- The same component, whose score may have got lost.
pub record IsForgotten (c d : Component) : Type 0 where
  pub same_weight : c.weight ≡ d.weight
  pub informed : Informs c.score d.score

abbrev pub AllForgotten : List Component → List Component → Type 0
AllForgotten [] [] = Unit
AllForgotten (c ∷ cs) (d ∷ ds) = IsForgotten c d × AllForgotten cs ds
AllForgotten _ _ = ⊥

module _ (c d : Component) (forgotten : IsForgotten c d) (fair : IsFair d) where
  forgotten_gives_less :
      (contribution c ≤ℤ contribution d) × (best_contribution d ≤ℤ best_contribution c)
  unfolding contribution best_contribution
  forgotten_gives_less = elim forgotten.informed [
    | inl n ↦ rw (n, forgotten.same_weight) (lost d.score fair.1)
    | inr e ↦ rw (e, forgotten.same_weight) (omega arith, omega arith)
  ]
    where
      lost :
          (s : Option ℤ)
          → IsPercent s
          → (pos 0 *ℤ d.weight ≤ℤ or_zero s *ℤ d.weight)
            × (or_hundred s *ℤ d.weight ≤ℤ hundred *ℤ d.weight)
      lost none p = (omega arith, omega arith)
      lost (some s) p =
          (*ℤ_mono (pos 0) s d.weight p.0 fair.0, *ℤ_mono s hundred d.weight p.1 fair.0)

-- What the lists give, as one fact by induction.
forgotten_sums :
    (cs ds : List Component)
    → AllForgotten cs ds
    → All IsFair ds
    → (total_of cs ≡ total_of ds)
      × (contributed cs ≤ℤ contributed ds)
      × (sum_of best_contribution ds ≤ℤ sum_of best_contribution cs)
unfolding total_of contributed
forgotten_sums [] [] f fair = (refl, omega arith, omega arith)
forgotten_sums [] (d ∷ ds) f fair = absurd f
forgotten_sums (c ∷ cs) [] f fair = absurd f
forgotten_sums (c ∷ cs) (d ∷ ds) (f, fs) fair =
    let (t, l, h) = forgotten_sums cs ds fs fair.1 in
    let (less, more) = forgotten_gives_less c d f fair.0 in
    (rw (f.same_weight, t) refl, omega (int_laws, l, less), omega (int_laws, h, more))

pub AllForgotten-AtMost :
    (cs ds : List Component)
    → AllForgotten cs ds
    → All IsFair ds
    → AtMost (score_of cs) (score_of ds) × AtMost (best_of ds) (best_of cs)
unfolding score_of best_of
AllForgotten-AtMost cs ds f fair =
    let (t, l, h) = forgotten_sums cs ds f fair in
    let e = rw t at (best_sum cs) in
    (
      rw t (per_total_mono (contributed cs) (contributed ds) (total_of ds) l),
      rw t
          (per_total_mono _ _ (total_of ds) (omega (arith, h, parts_eq (best_sum ds), parts_eq e))),
    )
