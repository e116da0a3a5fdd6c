-- ===== src/Payoff/Nodes.antt =====
-- The points at which `_extreme` of option_signal_bot/strategies/payoff.py looks.
use mathlib.Core.Path.{subst}
use kh_optionbaz.Prelude.{
  ◌≡◌, refl, sym, ◌∙◌, arith, ◌⊎◌, inl, inr, false, Bool-cases, Option, none, some, List, [], ◌∷◌,
  map, All, ℤ, pos, ◌≤ℤ◌, ◌<ℤ◌, leb_ℤ, ltb_ℤ, leb_ℤ→≤ℤ, leb_ℤ→<ℤ, max_ℤ, max_ℤ_bounds, min_ℤ,
  min_ℤ_bounds, IsSorted, sort_by-IsSorted, All-sort_by, All-sort_by_inv, Option-cases, same,
  same_sound, distinct_All, distinct_All_inv,
}
use kh_optionbaz.Payoff.{PositionLeg, strikes_in, strikes_of, greatest, smallest}

abbrev IsAscending : List ℤ → Type 0
IsAscending = IsSorted ltb_ℤ

-- Two neighbours around `x`, or the last node below it.
abbrev pub Bracket : (ℤ → Type 0) → ℤ → List ℤ → Type 0
Bracket P x nodes =
    ((lo : ℤ) × (hi : ℤ) × P lo
      × P hi
      × (lo ≤ℤ x)
      × (x ≤ℤ hi)
      × All (λ n. (n ≤ℤ lo) ⊎ (hi ≤ℤ n)) nodes)
    ⊎ ((lo : ℤ) × P lo × (lo ≤ℤ x) × All (λ n. n ≤ℤ lo) nodes)

module _ (P : ℤ → Type 0) (x : ℤ) where
  not_before : (n : ℤ) (ns : List ℤ) → All (λ y. ltb_ℤ y n ≡ false) ns → All (λ m. n ≤ℤ m) ns
  not_before n [] h = tt
  not_before n (m ∷ ns) h = (ground arith, not_before n ns h.1)

  all_above :
      (lo hi : ℤ) (ns : List ℤ) → All (λ m. hi ≤ℤ m) ns → All (λ m. (m ≤ℤ lo) ⊎ (hi ≤ℤ m)) ns
  all_above lo hi [] h = tt
  all_above lo hi (m ∷ ns) h = (inr h.0, all_above lo hi ns h.1)

  add_first :
      (a n : ℤ) (ns : List ℤ) → a ≤ℤ n → n <ℤ x → Bracket P x (n ∷ ns) → Bracket P x (a ∷ n ∷ ns)
  add_first a n ns h k (inl (lo, hi, p, q, l, u, (o, rest))) =
      let low : n ≤ℤ lo = elim o [ inl b ↦ b | inr c ↦ absurd (omega arith) ] in
      inl (lo, hi, p, q, l, u, (inl (omega (arith, h, low)), (inl low, rest)))
  add_first a n ns h k (inr (lo, p, l, (o, rest))) =
      inr (lo, p, l, (omega (arith, h, o), (o, rest)))

  pub bracket :
      (a : ℤ) (ns : List ℤ) → IsAscending (a ∷ ns) → P a → All P ns → a ≤ℤ x → Bracket P x (a ∷ ns)
  bracket a [] s p ps h = inr (a, p, h, (omega arith, tt))
  bracket a (n ∷ ns) s p ps h = elim (Bool-cases (leb_ℤ x n)) [
    | inl b ↦ inl (
      a,
      n,
      p,
      ps.0,
      h,
      leb_ℤ→≤ℤ x n b,
      (inl (omega arith), (inr (omega arith), all_above a n ns (not_before n ns s.1.0))),
    )
    | inr b ↦
        let above = leb_ℤ→<ℤ x n b in
        add_first a n ns (not_before a (n ∷ ns) s.0).0 above
          (bracket n ns s.1 ps.0 ps.1 (omega (arith, above)))
  ]

module _ (P : ℤ → Type 0) where
  -- A property of the strike of a leg, where it has one.
  abbrev pub OfStrike : Option ℤ → Type 0
  OfStrike none = Unit
  OfStrike (some k) = P k

  strikes_in_All :
      (legs : List PositionLeg) → All (λ leg. OfStrike leg.strike) legs → All P (strikes_in legs)
  strikes_in_All [] h = tt
  strikes_in_All (leg ∷ legs) h = elim (Option-cases leg.strike) [
    | inl n ↦ rw n (strikes_in_All legs h.1)
    | inr (k, e) ↦ elim (Bool-cases (same k (pos 0))) [
      | inl b ↦ rw (e, b) (strikes_in_All legs h.1)
      | inr b ↦ rw (e, b) (rw e at h.0, strikes_in_All legs h.1)
    ]
  ]

  strikes_in_All_inv :
      (legs : List PositionLeg)
      → P (pos 0)
      → All P (strikes_in legs)
      → All (λ leg. OfStrike leg.strike) legs
  strikes_in_All_inv [] z h = tt
  strikes_in_All_inv (leg ∷ legs) z h = elim (Option-cases leg.strike) [
    | inl n ↦ (rw n tt, strikes_in_All_inv legs z (rw n at h))
    | inr (k, e) ↦ elim (Bool-cases (same k (pos 0))) [
      | inl b ↦ (
        rw e (subst P (sym (same_sound k (pos 0) b)) z),
        strikes_in_All_inv legs z (rw (e, b) at h),
      )
      | inr b ↦ let h' = rw (e, b) at h in (rw e h'.0, strikes_in_All_inv legs z h'.1)
    ]
  ]

  pub strikes_of_All :
      (legs : List PositionLeg) → All (λ leg. OfStrike leg.strike) legs → All P (strikes_of legs)
  unfolding strikes_of
  strikes_of_All legs h = All-sort_by ltb_ℤ P _ (distinct_All P _ (strikes_in_All legs h))

  pub strikes_of_All_inv :
      (legs : List PositionLeg)
      → P (pos 0)
      → All P (strikes_of legs)
      → All (λ leg. OfStrike leg.strike) legs
  unfolding strikes_of
  strikes_of_All_inv legs z h =
      strikes_in_All_inv legs z (distinct_All_inv P _ (All-sort_by_inv ltb_ℤ P _ h))

not_below : (ks : List ℤ) → All (λ k. pos 0 ≤ℤ k) ks → All (λ k. ltb_ℤ k (pos 0) ≡ false) ks
not_below [] h = tt
not_below (k ∷ ks) h = (let low = h.0 in ground arith, not_below ks h.1)

-- From 0 on, the strikes stand in ascending order.
pub strikes_of-IsSorted :
    (legs : List PositionLeg)
    → All (λ leg. OfStrike (λ k. pos 0 ≤ℤ k) leg.strike) legs
    → IsSorted ltb_ℤ (pos 0 ∷ strikes_of legs)
unfolding strikes_of
strikes_of-IsSorted legs h = (
  not_below _ (strikes_of_All (λ k. pos 0 ≤ℤ k) legs h),
  sort_by-IsSorted ltb_ℤ (λ x y k. ground arith) (λ x y z k l. ground arith) _,
)

max_either : (a b : ℤ) → (max_ℤ a b ≡ a) ⊎ (max_ℤ a b ≡ b)
unfolding max_ℤ
max_either a b = ground arith

min_either : (a b : ℤ) → (min_ℤ a b ≡ a) ⊎ (min_ℤ a b ≡ b)
unfolding min_ℤ
min_either a b = ground arith

-- The greatest and the smallest value of a function on a list of points.
module _ (f : ℤ → ℤ) where
  pub greatest_bounds :
      (v : ℤ) (ns : List ℤ)
      → (v ≤ℤ greatest v (map f ns)) × All (λ n. f n ≤ℤ greatest v (map f ns)) ns
  greatest_bounds v [] = (omega arith, tt)
  greatest_bounds v (n ∷ ns) =
      let (a, b) = greatest_bounds (max_ℤ v (f n)) ns in
      let (c, d, _) = max_ℤ_bounds v (f n) in (omega (arith, a, c), (omega (arith, a, d), b))

  pub smallest_bounds :
      (v : ℤ) (ns : List ℤ)
      → (smallest v (map f ns) ≤ℤ v) × All (λ n. smallest v (map f ns) ≤ℤ f n) ns
  smallest_bounds v [] = (omega arith, tt)
  smallest_bounds v (n ∷ ns) =
      let (a, b) = smallest_bounds (min_ℤ v (f n)) ns in
      let (c, d, _) = min_ℤ_bounds v (f n) in (omega (arith, a, c), (omega (arith, a, d), b))

  module _ (P : ℤ → Type 0) where
    -- A value that is taken at a point with a property.
    abbrev pub TakenAt : ℤ → Type 0
    TakenAt v = (p : ℤ) × P p × (v ≡ f p)

    either_taken : (v w u : ℤ) → (u ≡ v) ⊎ (u ≡ w) → TakenAt v → TakenAt w → TakenAt u
    either_taken v w u (inl e) (p, k, h) t = (p, k, e ∙ h)
    either_taken v w u (inr e) t (p, k, h) = (p, k, e ∙ h)

    pub greatest_taken :
        (v : ℤ) (ns : List ℤ) → TakenAt v → All P ns → TakenAt (greatest v (map f ns))
    greatest_taken v [] t h = t
    greatest_taken v (n ∷ ns) t h =
        greatest_taken (max_ℤ v (f n)) ns
          (either_taken v (f n) (max_ℤ v (f n)) (max_either v (f n)) t (n, h.0, refl)) h.1

    pub smallest_taken :
        (v : ℤ) (ns : List ℤ) → TakenAt v → All P ns → TakenAt (smallest v (map f ns))
    smallest_taken v [] t h = t
    smallest_taken v (n ∷ ns) t h =
        smallest_taken (min_ℤ v (f n)) ns
          (either_taken v (f n) (min_ℤ v (f n)) (min_either v (f n)) t (n, h.0, refl)) h.1
