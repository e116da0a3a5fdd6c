-- ===== src/Payoff/Linear.antt =====
-- The payoff of option_signal_bot/strategies/payoff.py is a straight line between neighbouring
-- strikes, and a straight line takes its extremes at its ends.
use kh_optionbaz.Prelude.{
  ◌≡◌, refl, sym, ap, ◌∙◌, arith, ◌⊎◌, inl, inr, Bool, true, false, Option, none, some, List, [],
  ◌∷◌, All, ℤ, pos, negsuc, ◌+ℤ◌, ◌-ℤ◌, ◌*ℤ◌, ◌≤ℤ◌, leb_ℤ, if◌then◌else◌, max_ℤ_bounds, sum_of,
  int_laws, parts_eq, +ℤ-*ℤ, -ℤ-*ℤ, *ℤ_comm, *ℤ_assoc, *ℤ_mono_right, zero-*ℤ, one-*ℤ,
}
use kh_optionbaz.Payoff.{
  PositionLeg, OptionType, call, put, StrategyPayoff, signed, intrinsic, intrinsic_at, units,
  payoff_at, payoff, commission,
}

-- Where `f` is a line of this slope.
pub record IsLine (P : ℤ → Type 0) (f : ℤ → ℤ) (slope : ℤ) : Type 0 where
  pub start : ℤ
  pub along : (x : ℤ) → P x → f x ≡ slope *ℤ x +ℤ start

-- Sums, differences from a constant, and multiples of lines.
module _ (P : ℤ → Type 0) where
  sum-IsLine :
      (f g : ℤ → ℤ) (m n : ℤ) → IsLine P f m → IsLine P g n → IsLine P (λ x. f x +ℤ g x) (m +ℤ n)
  sum-IsLine f g m n k l = record {
    start = k.start +ℤ l.start;
    along = λ x p.
        omega (int_laws, parts_eq (k.along x p), parts_eq (l.along x p), parts_eq (+ℤ-*ℤ m n x));
  }

  multiple-IsLine :
      (f : ℤ → ℤ) (m e u : ℤ) → IsLine P f m → IsLine P (λ x. (f x -ℤ e) *ℤ u) (m *ℤ u)
  multiple-IsLine f m e u k = record {
    start = (k.start -ℤ e) *ℤ u;
    along = λ x p.
        let split : f x -ℤ e ≡ m *ℤ x +ℤ (k.start -ℤ e) =
          omega (int_laws, parts_eq (k.along x p)) in
        let turn : m *ℤ x *ℤ u ≡ m *ℤ u *ℤ x =
          *ℤ_assoc m x u ∙ ap (λ (t : ℤ). m *ℤ t) (*ℤ_comm x u) ∙ sym (*ℤ_assoc m u x) in
        ap (λ (t : ℤ). t *ℤ u) split
        ∙ +ℤ-*ℤ (m *ℤ x) (k.start -ℤ e) u
        ∙ ap (λ (t : ℤ). t +ℤ (k.start -ℤ e) *ℤ u) turn;
  }

  signed-IsLine :
      (f : ℤ → ℤ) (m : ℤ) (long : Bool)
      → IsLine P f m
      → IsLine P (λ x. signed long (f x)) (signed long m)
  signed-IsLine f m true k = k
  signed-IsLine f m false k = record {
    start = pos 0 -ℤ k.start;
    along = λ x p.
        omega
          (int_laws, parts_eq (k.along x p), parts_eq (-ℤ-*ℤ (pos 0) m x), parts_eq (zero-*ℤ x));
  }

  flat-IsLine : (c : ℤ) (f : ℤ → ℤ) → ((x : ℤ) → P x → f x ≡ c) → IsLine P f (pos 0)
  flat-IsLine c f h = record {
    start = c;
    along = λ x p. omega (int_laws, parts_eq (h x p), parts_eq (zero-*ℤ x));
  }

  unit-IsLine : (c : ℤ) (f : ℤ → ℤ) → ((x : ℤ) → P x → f x ≡ x +ℤ c) → IsLine P f (pos 1)
  unit-IsLine c f h = record {
    start = c;
    along = λ x p. omega (int_laws, parts_eq (h x p), parts_eq (one-*ℤ x));
  }

  down-IsLine : (c : ℤ) (f : ℤ → ℤ) → ((x : ℤ) → P x → f x ≡ c -ℤ x) → IsLine P f (pos 0 -ℤ pos 1)
  down-IsLine c f h = record {
    start = c;
    along = λ x p. omega (
      int_laws,
      parts_eq (h x p),
      parts_eq (one-*ℤ x),
      parts_eq (-ℤ-*ℤ (pos 0) (pos 1) x),
      parts_eq (zero-*ℤ x),
    );
  }

-- The slope of the value of one unit, on an interval that starts at or above the strike, or ends at
-- or below it.
abbrev pub unit_slope : Option OptionType → Option ℤ → Bool → ℤ
unit_slope none strike above = pos 1
unit_slope (some t) none above = pos 0
unit_slope (some call) (some k) above = if above then pos 1 else pos 0
unit_slope (some put) (some k) above = if above then pos 0 else pos 0 -ℤ pos 1

-- The prices from `lo` on, up to `hi` where there is one.
abbrev pub Between : ℤ → Option ℤ → ℤ → Type 0
Between lo none x = lo ≤ℤ x
Between lo (some hi) x = (lo ≤ℤ x) × (x ≤ℤ hi)

abbrev pub Outside : ℤ → Option ℤ → Bool → Option ℤ → Type 0
Outside lo hi above none = Unit
Outside lo hi true (some k) = k ≤ℤ lo
Outside lo none false (some k) = ⊥
Outside lo (some hi) false (some k) = hi ≤ℤ k

at_least : (lo : ℤ) (hi : Option ℤ) (x : ℤ) → Between lo hi x → lo ≤ℤ x
at_least lo none x p = p
at_least lo (some hi) x p = p.0

intrinsic-IsLine :
    (lo : ℤ) (hi : Option ℤ) (t : Option OptionType) (strike : Option ℤ) (above : Bool)
    → Outside lo hi above strike
    → IsLine (Between lo hi) (intrinsic t strike) (unit_slope t strike above)
intrinsic-IsLine lo hi none strike above o = unit-IsLine _ (pos 0) _ (λ x p. omega int_laws)
intrinsic-IsLine lo hi (some t) none above o = flat-IsLine _ (pos 0) _ (λ x p. refl)
intrinsic-IsLine lo hi (some call) (some k) true o =
    unit-IsLine _ (pos 0 -ℤ k) _
      (λ x p. omega (int_laws, max_ℤ_bounds (x -ℤ k) (pos 0), at_least lo hi x p, o))
intrinsic-IsLine lo none (some call) (some k) false o = absurd o
intrinsic-IsLine lo (some hi) (some call) (some k) false o =
    flat-IsLine _ (pos 0) _ (λ x p. omega (int_laws, max_ℤ_bounds (x -ℤ k) (pos 0), p.1, o))
intrinsic-IsLine lo hi (some put) (some k) true o =
    flat-IsLine _ (pos 0) _
      (λ x p. omega (int_laws, max_ℤ_bounds (k -ℤ x) (pos 0), at_least lo hi x p, o))
intrinsic-IsLine lo none (some put) (some k) false o = absurd o
intrinsic-IsLine lo (some hi) (some put) (some k) false o =
    down-IsLine _ k _ (λ x p. omega (int_laws, max_ℤ_bounds (k -ℤ x) (pos 0), p.1, o))

-- Whether a leg's strike lies at or below the interval.
abbrev pub strike_below : ℤ → Option ℤ → Bool
strike_below lo none = true
strike_below lo (some k) = leb_ℤ k lo

abbrev pub leg_slope : ℤ → PositionLeg → ℤ
leg_slope lo leg =
    signed leg.is_long
      (unit_slope leg.option_type leg.strike (strike_below lo leg.strike) *ℤ units leg)

abbrev pub IsOutside : ℤ → Option ℤ → PositionLeg → Type 0
IsOutside lo hi leg = Outside lo hi (strike_below lo leg.strike) leg.strike

leg-IsLine :
    (lo : ℤ) (hi : Option ℤ) (leg : PositionLeg)
    → IsOutside lo hi leg
    → IsLine (Between lo hi) (payoff_at leg) (leg_slope lo leg)
unfolding payoff_at intrinsic_at
leg-IsLine lo hi leg o = signed-IsLine _ _ _ leg.is_long (
    multiple-IsLine _ _ _ leg.entry_price (units leg)
      (intrinsic-IsLine lo hi leg.option_type leg.strike (strike_below lo leg.strike) o))

legs-IsLine :
    (lo : ℤ) (hi : Option ℤ) (legs : List PositionLeg)
    → All (IsOutside lo hi) legs
    → IsLine
        (Between lo hi)
        (λ x. sum_of (λ leg. payoff_at leg x) legs)
        (sum_of (leg_slope lo) legs)
legs-IsLine lo hi [] o = flat-IsLine _ (pos 0) _ (λ x p. refl)
legs-IsLine lo hi (leg ∷ legs) o =
    sum-IsLine _ _ _ _ _ (leg-IsLine lo hi leg o.0) (legs-IsLine lo hi legs o.1)

-- The whole structure on an interval that no strike lies strictly inside of.
pub payoff-IsLine :
    (divide : ℤ → ℤ → ℤ) (s : StrategyPayoff) (lo : ℤ) (hi : Option ℤ)
    → All (IsOutside lo hi) s.legs
    → IsLine (Between lo hi) (payoff divide s) (sum_of (leg_slope lo) s.legs)
unfolding payoff
payoff-IsLine divide s lo hi o =
    let k = legs-IsLine lo hi s.legs o in
    record {
      start = k.start -ℤ commission divide s;
      along = λ x p. omega (int_laws, parts_eq (k.along x p));
    }

-- A product by a number that is not positive turns the order around.
*ℤ_anti : (a b m : ℤ) → a ≤ℤ b → m ≤ℤ pos 0 → m *ℤ b ≤ℤ m *ℤ a
*ℤ_anti a b m h k = omega (
  int_laws,
  *ℤ_mono_right a b (pos 0 -ℤ m) h (omega int_laws),
  parts_eq (-ℤ-*ℤ (pos 0) m a),
  parts_eq (-ℤ-*ℤ (pos 0) m b),
  parts_eq (zero-*ℤ a),
  parts_eq (zero-*ℤ b),
)

sign_of : (m : ℤ) → (pos 0 ≤ℤ m) ⊎ (m ≤ℤ pos 0)
sign_of (pos n) = inl (omega arith)
sign_of (negsuc n) = inr (omega arith)

-- A line between two points of it, and a line that falls or rises from one point on.
module _ (f : ℤ → ℤ) (m lo x : ℤ) (low : lo ≤ℤ x) where
  pub line_top :
      (hi bound : ℤ)
      → x ≤ℤ hi
      → IsLine (Between lo (some hi)) f m
      → f lo ≤ℤ bound
      → f hi ≤ℤ bound
      → f x ≤ℤ bound
  line_top hi bound h k a b =
      let here = parts_eq (k.along x (low, h)) in
      elim (sign_of m) [
        | inl n ↦ omega (
          int_laws,
          here,
          parts_eq (k.along hi (omega (arith, low, h), omega arith)),
          *ℤ_mono_right x hi m h n,
          b,
        )
        | inr n ↦ omega (
          int_laws,
          here,
          parts_eq (k.along lo (omega arith, omega (arith, low, h))),
          *ℤ_anti lo x m low n,
          a,
        )
      ]

  pub line_bottom :
      (hi bound : ℤ)
      → x ≤ℤ hi
      → IsLine (Between lo (some hi)) f m
      → bound ≤ℤ f lo
      → bound ≤ℤ f hi
      → bound ≤ℤ f x
  line_bottom hi bound h k a b =
      let here = parts_eq (k.along x (low, h)) in
      elim (sign_of m) [
        | inl n ↦ omega (
          int_laws,
          here,
          parts_eq (k.along lo (omega arith, omega (arith, low, h))),
          *ℤ_mono_right lo x m low n,
          a,
        )
        | inr n ↦ omega (
          int_laws,
          here,
          parts_eq (k.along hi (omega (arith, low, h), omega arith)),
          *ℤ_anti x hi m h n,
          b,
        )
      ]

  pub line_falls :
      (bound : ℤ) → m ≤ℤ pos 0 → IsLine (Between lo none) f m → f lo ≤ℤ bound → f x ≤ℤ bound
  line_falls bound n k a = omega (
    int_laws,
    parts_eq (k.along x low),
    parts_eq (k.along lo (omega arith)),
    *ℤ_anti lo x m low n,
    a,
  )

  pub line_rises :
      (bound : ℤ) → pos 0 ≤ℤ m → IsLine (Between lo none) f m → bound ≤ℤ f lo → bound ≤ℤ f x
  line_rises bound n k a = omega (
    int_laws,
    parts_eq (k.along x low),
    parts_eq (k.along lo (omega arith)),
    *ℤ_mono_right lo x m low n,
    a,
  )
