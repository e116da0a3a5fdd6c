-- ===== src/Payoff/Extremes.antt =====
-- `max_profit` and `max_loss` of option_signal_bot/strategies/payoff.py against the payoff at every price.
use kh_optionbaz.Prelude.{
  ◌≡◌, refl, arith, inl, inr, Bool, true, false, not, Bool-cases, Option, none, some, List, [], ◌∷◌,
  ◌++◌, map, All, All-append, ℤ, pos, ◌+ℤ◌, ◌-ℤ◌, ◌*ℤ◌, ◌≤ℤ◌, ltb_ℤ, if◌then◌else◌, sum_of,
  int_laws, parts_eq, IsSorted, *ℤ_nonneg, same,
}
use kh_optionbaz.Payoff.{
  PositionLeg, StrategyPayoff, payoff, strikes_of, probes_of, extreme, pick, max_profit, max_loss,
  has_unlimited_upside, has_unlimited_downside, calls_of, covered_by, last_of, mids, center_of,
  or_half,
}
use kh_optionbaz.Payoff.Nodes.{
  OfStrike, strikes_of_All, strikes_of-IsSorted, greatest_bounds, smallest_bounds, TakenAt,
  greatest_taken, smallest_taken,
}
use kh_optionbaz.Payoff.Bounds.{IsOption, no_cover, strikes_nonneg, payoff_top, payoff_bottom}

abbrev IsNonneg : ℤ → Type 0
IsNonneg k = pos 0 ≤ℤ k

-- The points at which the code looks, for strikes that are not negative.
module _ (divide : ℤ → ℤ → ℤ)
    (d : (a b : ℤ) → IsNonneg a → IsNonneg b → IsNonneg (divide a b)) where
  mids-IsNonneg : (ks : List ℤ) → All IsNonneg ks → All IsNonneg (mids divide ks)
  mids-IsNonneg [] h = tt
  mids-IsNonneg (a ∷ []) h = tt
  mids-IsNonneg (a ∷ b ∷ ks) h =
      (d (a +ℤ b) (pos 2) (omega (int_laws, h.0, h.1.0)) (omega arith), mids-IsNonneg (b ∷ ks) h.1)

  last_above : (k : ℤ) (ks : List ℤ) → IsSorted ltb_ℤ (k ∷ ks) → k ≤ℤ last_of k ks
  last_above k [] s = omega arith
  last_above k (n ∷ ks) s = let low = s.0.0 in let high = last_above n ks s.1 in ground arith

  probes-IsNonneg :
      (price : Option ℤ) (ks : List ℤ)
      → OfStrike IsNonneg price
      → All IsNonneg ks
      → IsSorted ltb_ℤ ks
      → All IsNonneg (probes_of divide price ks)
  probes-IsNonneg none [] c h s = (omega arith, tt)
  probes-IsNonneg (some center) [] c h s = elim (Bool-cases (same center (pos 0))) [
    | inl b ↦ rw b (omega arith, tt)
    | inr b ↦ rw b (omega arith, (*ℤ_nonneg center (pos 2) c (omega arith), tt))
  ]
  probes-IsNonneg price (k ∷ ks) c h s =
      let top = last_above k ks s in
      let least = h.0 in
      let first : IsNonneg (last_of k ks) = omega (arith, top, least) in
      let rest = mids-IsNonneg (k ∷ ks) h in
      (
        omega arith,
        All-append IsNonneg (k ∷ ks) _ h (elim (Bool-cases (same (last_of k ks -ℤ k) (pos 0))) [
          | inl b ↦ rw b (
            let half = d (last_of k ks) (pos 2) first (omega arith) in
                omega (int_laws, first, half),
            rest,
          )
          | inr b ↦ rw b (omega (int_laws, first, top), rest)
        ]),
      )

prefix_All : (P : ℤ → Type 0) (xs ys : List ℤ) → All P (xs ++ ys) → All P xs
prefix_All P [] ys h = tt
prefix_All P (x ∷ xs) ys h = (h.0, prefix_All P xs ys h.1)

-- The probes are 0, the strikes and others.
probes_shape :
    (divide : ℤ → ℤ → ℤ) (price : Option ℤ) (ks : List ℤ)
    → (rest : List ℤ) × (probes_of divide price ks ≡ pos 0 ∷ ks ++ rest)
probes_shape divide price [] = elim (Bool-cases (same (center_of price) (pos 0))) [
  | inl b ↦ ([], rw b refl)
  | inr b ↦ ((center_of price *ℤ pos 2) ∷ [], rw b refl)
]
probes_shape divide price (k ∷ ks) = (
  (last_of k ks +ℤ or_half divide (last_of k ks -ℤ k) (last_of k ks)) ∷ mids divide (k ∷ ks),
  refl,
)

-- The extremes over the probes.
module _ (divide : ℤ → ℤ → ℤ) (s : StrategyPayoff) where
  abbrev extreme_on : Bool → List ℤ → ℤ
  extreme_on maximize probes = pick maximize (map (payoff divide s) probes)

  top_of_probes :
      (ks probes rest : List ℤ)
      → probes ≡ pos 0 ∷ ks ++ rest
      → (payoff divide s (pos 0) ≤ℤ extreme_on true probes)
        × All (λ n. payoff divide s n ≤ℤ extreme_on true probes) ks
  top_of_probes ks probes rest e = rw e (
      let (a, b) = greatest_bounds (payoff divide s) (payoff divide s (pos 0)) (ks ++ rest) in
      (a, prefix_All _ ks rest b))

  bottom_of_probes :
      (ks probes rest : List ℤ)
      → probes ≡ pos 0 ∷ ks ++ rest
      → (extreme_on false probes ≤ℤ payoff divide s (pos 0))
        × All (λ n. extreme_on false probes ≤ℤ payoff divide s n) ks
  bottom_of_probes ks probes rest e = rw e (
      let (a, b) = smallest_bounds (payoff divide s) (payoff divide s (pos 0)) (ks ++ rest) in
      (a, prefix_All _ ks rest b))

  extreme_taken :
      (maximize : Bool) (ks probes rest : List ℤ)
      → probes ≡ pos 0 ∷ ks ++ rest
      → All IsNonneg probes
      → TakenAt (payoff divide s) IsNonneg (extreme_on maximize probes)
  extreme_taken maximize ks probes rest e h = let ns = rw e at h in rw e (taken maximize ns)
    where
      taken :
          (m : Bool)
          → All IsNonneg (pos 0 ∷ ks ++ rest)
          → TakenAt (payoff divide s) IsNonneg (extreme_on m (pos 0 ∷ ks ++ rest))
      taken true ns =
          greatest_taken (payoff divide s) IsNonneg _ (ks ++ rest) (pos 0, ns.0, refl) ns.1
      taken false ns =
          smallest_taken (payoff divide s) IsNonneg _ (ks ++ rest) (pos 0, ns.0, refl) ns.1

-- What is returned where the side is not open.
closed_side :
    {a : ℤ} (single unlimited : Bool) (v : ℤ)
    → (if not single then none else if unlimited then none else some v) ≡ some a
    → (unlimited ≡ false) × (v ≡ a)
closed_side false unlimited v e = absurd cc
closed_side true true v e = absurd cc
closed_side true false v e = (refl, cc)

upside_closed :
    (legs : List PositionLeg)
    → has_unlimited_upside legs ≡ false
    → sum_of (calls_of true) legs ≤ℤ sum_of (calls_of false) legs
unfolding has_unlimited_upside
upside_closed legs h = ground arith

downside_closed :
    (size : ℤ) (legs : List PositionLeg)
    → All (IsOption size) legs
    → has_unlimited_downside legs ≡ false
    → sum_of (calls_of false) legs ≤ℤ sum_of (calls_of true) legs
unfolding has_unlimited_downside
downside_closed size legs o h =
    let b : sum_of (calls_of false) legs ≤ℤ sum_of (calls_of true) legs +ℤ sum_of covered_by legs =
      ground arith in
    omega (int_laws, b, parts_eq (no_cover size legs o))

module _ (divide : ℤ → ℤ → ℤ) (d : (a b : ℤ) → IsNonneg a → IsNonneg b → IsNonneg (divide a b))
    (s : StrategyPayoff) (size : ℤ) (o : All (IsOption size) s.legs) (n : IsNonneg size)
    (c : OfStrike IsNonneg s.underlying_price) (m : ℤ) where
  taken_in : (maximize : Bool) → TakenAt (payoff divide s) IsNonneg (extreme divide s maximize)
  unfolding extreme
  taken_in maximize =
      let (rest, e) = probes_shape divide s.underlying_price (strikes_of s.legs) in
      let low = strikes_nonneg size s.legs o in
      extreme_taken divide s maximize (strikes_of s.legs) _ rest e (
        probes-IsNonneg divide d s.underlying_price (strikes_of s.legs) c
          (strikes_of_All IsNonneg s.legs low) (strikes_of-IsSorted s.legs low).1)

  profit_at :
      (x : ℤ)
      → IsNonneg x
      → has_unlimited_upside s.legs ≡ false
      → payoff divide s x ≤ℤ extreme divide s true
  unfolding extreme
  profit_at x z closed =
      let (rest, e) = probes_shape divide s.underlying_price (strikes_of s.legs) in
      let (p, ps) = top_of_probes divide s (strikes_of s.legs) _ rest e in
      payoff_top divide s size o x z _ n (upside_closed s.legs closed) p ps

  loss_at :
      (x : ℤ)
      → IsNonneg x
      → has_unlimited_downside s.legs ≡ false
      → extreme divide s false ≤ℤ payoff divide s x
  unfolding extreme
  loss_at x z closed =
      let (rest, e) = probes_shape divide s.underlying_price (strikes_of s.legs) in
      let (p, ps) = bottom_of_probes divide s (strikes_of s.legs) _ rest e in
      payoff_bottom divide s size o x z _ n (downside_closed size s.legs o closed) p ps

  -- Where every leg is an option on the same number of units, at a strike that is not negative, the
  -- maximal profit that is returned is the greatest payoff over all prices that are not negative, and
  -- one of them has it; the division keeps non-negative numbers so.
  pub max_profit_greatest :
      max_profit divide s ≡ some m
      → ((x : ℤ) → IsNonneg x → payoff divide s x ≤ℤ m) × TakenAt (payoff divide s) IsNonneg m
  unfolding max_profit
  max_profit_greatest e =
      let (closed, v) = closed_side s.single_expiry _ _ e in
      rw (← v) ((λ x z. profit_at x z closed), taken_in true)

  -- Under the same conditions the maximal loss that is returned is the least payoff over all prices
  -- that are not negative, and one of them has it.
  pub max_loss_least :
      max_loss divide s ≡ some m
      → ((x : ℤ) → IsNonneg x → m ≤ℤ payoff divide s x) × TakenAt (payoff divide s) IsNonneg m
  unfolding max_loss
  max_loss_least e =
      let (closed, v) = closed_side s.single_expiry _ _ e in
      rw (← v) ((λ x z. loss_at x z closed), taken_in false)
