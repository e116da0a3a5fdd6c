-- ===== src/Payoff/Bounds.antt =====
-- `max_profit` and `max_loss` of option_signal_bot/strategies/payoff.py bound the payoff at every price.
use kh_optionbaz.Prelude.{
  ◌≡◌, refl, ap, ◌∙◌, arith, ◌⊎◌, inl, inr, Bool, true, false, not, ◌&&◌, Bool-cases, Option, none,
  some, List, [], ◌∷◌, All, ℤ, pos, ◌+ℤ◌, ◌-ℤ◌, ◌*ℤ◌, ◌≤ℤ◌, leb_ℤ, leb_ℤ→≤ℤ, leb_ℤ→<ℤ,
  if◌then◌else◌, sum_of, int_laws, parts_eq, *ℤ_mono, zero-*ℤ, one-*ℤ, -ℤ-*ℤ, +ℤ-*ℤ,
}
use kh_optionbaz.Payoff.{
  PositionLeg, OptionType, call, put, StrategyPayoff, is_option, units, payoff, strikes_of,
  calls_of, covered_by, signed, is_call,
}
use kh_optionbaz.Payoff.Linear.{
  IsLine, Between, Outside, unit_slope, strike_below, leg_slope, payoff-IsLine, line_top,
  line_bottom, line_falls, line_rises,
}
use kh_optionbaz.Payoff.Nodes.{Bracket, bracket, OfStrike, strikes_of_All_inv, strikes_of-IsSorted}

-- An option on `size` units, at a strike that is not negative.
pub record IsOption (size : ℤ) (leg : PositionLeg) : Type 0 where
  pub kind : OptionType
  pub price : ℤ
  pub is_kind : leg.option_type ≡ some kind
  pub at : leg.strike ≡ some price
  pub price_nonneg : pos 0 ≤ℤ price
  pub sized : leg.contract_size ≡ size

-- The slope of one leg above its strike.
slope_of_kind :
    (t : OptionType) (k : ℤ) (long : Bool) (q size : ℤ)
    → signed long (unit_slope (some t) (some k) true *ℤ (q *ℤ size))
      ≡ ((if is_call (some t) && long then q else pos 0)
          -ℤ (if is_call (some t) && not long then q else pos 0))
        *ℤ size
slope_of_kind call k true q size = omega (
  int_laws,
  parts_eq (one-*ℤ (q *ℤ size)),
  parts_eq (-ℤ-*ℤ q (pos 0) size),
  parts_eq (zero-*ℤ size),
)
slope_of_kind call k false q size = omega (
  int_laws,
  parts_eq (one-*ℤ (q *ℤ size)),
  parts_eq (-ℤ-*ℤ (pos 0) q size),
  parts_eq (zero-*ℤ size),
)
slope_of_kind put k true q size = omega (
  int_laws,
  parts_eq (zero-*ℤ (q *ℤ size)),
  parts_eq (-ℤ-*ℤ (pos 0) (pos 0) size),
  parts_eq (zero-*ℤ size),
)
slope_of_kind put k false q size = omega (
  int_laws,
  parts_eq (zero-*ℤ (q *ℤ size)),
  parts_eq (-ℤ-*ℤ (pos 0) (pos 0) size),
  parts_eq (zero-*ℤ size),
)

slope_of_leg :
    (size lo : ℤ) (leg : PositionLeg)
    → IsOption size leg
    → OfStrike (λ k. k ≤ℤ lo) leg.strike
    → leg_slope lo leg ≡ (calls_of true leg -ℤ calls_of false leg) *ℤ size
unfolding units
slope_of_leg size lo leg o h =
    let below = rw o.at at h in
    let b : leb_ℤ o.price lo ≡ true = ground arith in
    rw (o.is_kind, o.at, o.sized, b) (slope_of_kind o.kind o.price leg.is_long leg.quantity size)

distribute : (a b c d n : ℤ) → (a +ℤ b -ℤ (c +ℤ d)) *ℤ n ≡ (a -ℤ c) *ℤ n +ℤ (b -ℤ d) *ℤ n
distribute a b c d n =
    let split : a +ℤ b -ℤ (c +ℤ d) ≡ a -ℤ c +ℤ (b -ℤ d) = omega int_laws in
    ap (λ (t : ℤ). t *ℤ n) split ∙ +ℤ-*ℤ (a -ℤ c) (b -ℤ d) n

-- The slope of the payoff above all strikes.
slope_of :
    (size lo : ℤ) (legs : List PositionLeg)
    → All (IsOption size) legs
    → All (λ leg. OfStrike (λ k. k ≤ℤ lo) leg.strike) legs
    → sum_of (leg_slope lo) legs
      ≡ (sum_of (calls_of true) legs -ℤ sum_of (calls_of false) legs) *ℤ size
slope_of size lo [] o h =
    omega (int_laws, parts_eq (-ℤ-*ℤ (pos 0) (pos 0) size), parts_eq (zero-*ℤ size))
slope_of size lo (leg ∷ legs) o h =
    let here = slope_of_leg size lo leg o.0 h.0 in
    let rest = slope_of size lo legs o.1 h.1 in
    omega (
      int_laws,
      parts_eq here,
      parts_eq rest,
      parts_eq (
          distribute (calls_of true leg) (sum_of (calls_of true) legs) (calls_of false leg)
            (sum_of (calls_of false) legs) size),
    )

pub no_cover :
    (size : ℤ) (legs : List PositionLeg) → All (IsOption size) legs → sum_of covered_by legs ≡ pos 0
unfolding is_option ◌+ℤ◌
no_cover size [] o = refl
no_cover size (leg ∷ legs) o = rw (o.0.is_kind, no_cover size legs o.1) refl

pub strikes_nonneg :
    (size : ℤ) (legs : List PositionLeg)
    → All (IsOption size) legs
    → All (λ leg. OfStrike (λ k. pos 0 ≤ℤ k) leg.strike) legs
strikes_nonneg size [] o = tt
strikes_nonneg size (leg ∷ legs) o = (rw o.0.at o.0.price_nonneg, strikes_nonneg size legs o.1)

between-Outside :
    (lo hi : ℤ) (strike : Option ℤ)
    → OfStrike (λ k. (k ≤ℤ lo) ⊎ (hi ≤ℤ k)) strike
    → Outside lo (some hi) (strike_below lo strike) strike
between-Outside lo hi none h = tt
between-Outside lo hi (some k) h = elim (Bool-cases (leb_ℤ k lo)) [
  | inl b ↦ rw b (leb_ℤ→≤ℤ k lo b)
  | inr b ↦
      let above = leb_ℤ→<ℤ k lo b in
      rw b (elim h [ inl e ↦ absurd (omega (arith, above, e)) | inr e ↦ e ])
]

above-Outside :
    (lo : ℤ) (strike : Option ℤ)
    → OfStrike (λ k. k ≤ℤ lo) strike
    → Outside lo none (strike_below lo strike) strike
above-Outside lo none h = tt
above-Outside lo (some k) h = let b : leb_ℤ k lo ≡ true = ground arith in rw b h

All-to {ℓ κ μ} :
    {A : Type ℓ} (P : A → Type κ) (Q : A → Type μ) (xs : List A)
    → ((x : A) → P x → Q x)
    → All P xs
    → All Q xs
All-to P Q [] f h = tt
All-to P Q (x ∷ xs) f h = (f x h.0, All-to P Q xs f h.1)

module _ (divide : ℤ → ℤ → ℤ) (s : StrategyPayoff) (size : ℤ) (o : All (IsOption size) s.legs)
    (x : ℤ) (z : pos 0 ≤ℤ x) where
  around :
      (P : ℤ → Type 0)
      → P (pos 0)
      → All P (strikes_of s.legs)
      → Bracket P x (pos 0 ∷ strikes_of s.legs)
  around P p ps =
      bracket P x (pos 0) (strikes_of s.legs)
        (strikes_of-IsSorted s.legs (strikes_nonneg size s.legs o)) p ps z

  neighbours-IsLine :
      (lo hi : ℤ)
      → All (λ n. (n ≤ℤ lo) ⊎ (hi ≤ℤ n)) (pos 0 ∷ strikes_of s.legs)
      → IsLine (Between lo (some hi)) (payoff divide s) (sum_of (leg_slope lo) s.legs)
  neighbours-IsLine lo hi h = payoff-IsLine divide s lo (some hi) (
      All-to _ _ s.legs (λ leg k. between-Outside lo hi leg.strike k)
        (strikes_of_All_inv (λ k. (k ≤ℤ lo) ⊎ (hi ≤ℤ k)) s.legs h.0 h.1))

  below_all :
      (lo : ℤ)
      → All (λ n. n ≤ℤ lo) (pos 0 ∷ strikes_of s.legs)
      → All (λ leg. OfStrike (λ k. k ≤ℤ lo) leg.strike) s.legs
  below_all lo h = strikes_of_All_inv (λ k. k ≤ℤ lo) s.legs h.0 h.1

  above-IsLine :
      (lo : ℤ)
      → All (λ n. n ≤ℤ lo) (pos 0 ∷ strikes_of s.legs)
      → IsLine
          (Between lo none)
          (payoff divide s)
          ((sum_of (calls_of true) s.legs -ℤ sum_of (calls_of false) s.legs) *ℤ size)
  above-IsLine lo h = rw (← slope_of size lo s.legs o (below_all lo h)) (
      payoff-IsLine divide s lo none
        (All-to _ _ s.legs (λ leg k. above-Outside lo leg.strike k) (below_all lo h)))

  pub payoff_top :
      (bound : ℤ)
      → pos 0 ≤ℤ size
      → sum_of (calls_of true) s.legs ≤ℤ sum_of (calls_of false) s.legs
      → payoff divide s (pos 0) ≤ℤ bound
      → All (λ n. payoff divide s n ≤ℤ bound) (strikes_of s.legs)
      → payoff divide s x ≤ℤ bound
  payoff_top bound n c p ps = elim (around (λ k. payoff divide s k ≤ℤ bound) p ps) [
    | inl (lo, hi, a, b, l, u, h) ↦
        line_top (payoff divide s) _ lo x l hi bound u (neighbours-IsLine lo hi h) a b
    | inr (lo, a, l, h) ↦
        line_falls (payoff divide s) _ lo x l bound
          (omega (
            int_laws,
            *ℤ_mono (sum_of (calls_of true) s.legs -ℤ sum_of (calls_of false) s.legs) (pos 0) size
                (omega (int_laws, c)) n,
            parts_eq (zero-*ℤ size),
          ))
          (above-IsLine lo h) a
  ]

  pub payoff_bottom :
      (bound : ℤ)
      → pos 0 ≤ℤ size
      → sum_of (calls_of false) s.legs ≤ℤ sum_of (calls_of true) s.legs
      → bound ≤ℤ payoff divide s (pos 0)
      → All (λ n. bound ≤ℤ payoff divide s n) (strikes_of s.legs)
      → bound ≤ℤ payoff divide s x
  payoff_bottom bound n c p ps = elim (around (λ k. bound ≤ℤ payoff divide s k) p ps) [
    | inl (lo, hi, a, b, l, u, h) ↦
        line_bottom (payoff divide s) _ lo x l hi bound u (neighbours-IsLine lo hi h) a b
    | inr (lo, a, l, h) ↦
        line_rises (payoff divide s) _ lo x l bound
          (omega (
            int_laws,
            *ℤ_mono (pos 0) (sum_of (calls_of true) s.legs -ℤ sum_of (calls_of false) s.legs) size
                (omega (int_laws, c)) n,
            parts_eq (zero-*ℤ size),
          ))
          (above-IsLine lo h) a
  ]
