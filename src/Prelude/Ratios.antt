-- ===== src/Prelude/Ratios.antt =====
-- A quotient of two amounts: percentages and relative spreads, which the code only compares and
-- shows. It is kept as its numerator and denominator, and two are compared by cross products.
use mathlib.Core.Path.{◌≡◌, refl}
use mathlib.Core.Logic.{inl, inr}
use mathlib.Core.Bool.{Bool, true, false}
use native.Mathlib.Omega.{arith}
use package.kh_optionbaz.Prelude.Tests.{Bool-cases}
use package.kh_optionbaz.Prelude.Int.{
  ℤ, pos, ◌+ℤ◌, ◌*ℤ◌, ◌≤ℤ◌, ◌<ℤ◌, leb_ℤ, ltb_ℤ, leb_ℤ→≤ℤ, leb_ℤ→<ℤ, int_laws, *ℤ_mono, +ℤ-*ℤ,
  one-*ℤ, *ℤ_comm, *ℤ_assoc, parts_eq,
}

pub record Ratio : Type 0 where
  pub num : ℤ
  pub den : ℤ

abbrev pub ratio : ℤ → ℤ → Ratio
ratio a b = record { num = a; den = b }

-- Both denominators are positive wherever the code compares.
abbrev pub ratio_leb : Ratio → Ratio → Bool
ratio_leb a b = leb_ℤ (a.num *ℤ b.den) (b.num *ℤ a.den)

abbrev pub ratio_ltb : Ratio → Ratio → Bool
ratio_ltb a b = ltb_ℤ (a.num *ℤ b.den) (b.num *ℤ a.den)

-- At most the other, for positive denominators.
abbrev pub AtMost : Ratio → Ratio → Type 0
AtMost a b = a.num *ℤ b.den ≤ℤ b.num *ℤ a.den

-- A positive factor on both sides.
pub *ℤ_cancel : (a b c : ℤ) → a *ℤ c ≤ℤ b *ℤ c → pos 0 <ℤ c → a ≤ℤ b
*ℤ_cancel a b c h k = elim (Bool-cases (leb_ℤ a b)) [
  | inl t ↦ leb_ℤ→≤ℤ a b t
  | inr f ↦
      let more = leb_ℤ→<ℤ a b f in
      absurd (
        omega (
          arith,
          *ℤ_mono (b +ℤ pos 1) a c (omega (int_laws, more)) (omega (arith, k)),
          parts_eq (+ℤ-*ℤ b (pos 1) c),
          parts_eq (one-*ℤ c),
          int_laws,
        ))
]

-- The same product in another order.
swap_last : (a b c : ℤ) → a *ℤ b *ℤ c ≡ a *ℤ c *ℤ b
swap_last a b c = rw (*ℤ_assoc a b c, *ℤ_comm b c, ← *ℤ_assoc a c b) refl

pub ratio_ltb_asym : (a b : Ratio) → ratio_ltb a b ≡ true → ratio_ltb b a ≡ false
ratio_ltb_asym a b h = ground arith

-- Quotients by positive numbers are in a linear order.
pub ratio_ltb_trans :
    (a b c : Ratio)
    → pos 0 <ℤ a.den
    → pos 0 <ℤ b.den
    → pos 0 <ℤ c.den
    → ratio_ltb b a ≡ false
    → ratio_ltb c b ≡ false
    → ratio_ltb c a ≡ false
ratio_ltb_trans a b c pa pb pc h k =
    let first : a.num *ℤ b.den ≤ℤ b.num *ℤ a.den = ground arith in
    let second : b.num *ℤ c.den ≤ℤ c.num *ℤ b.den = ground arith in
    let third =
      *ℤ_cancel (a.num *ℤ c.den) (c.num *ℤ a.den) b.den
        (omega (
          arith,
          *ℤ_mono (a.num *ℤ b.den) (b.num *ℤ a.den) c.den first (omega (arith, pc)),
          *ℤ_mono (b.num *ℤ c.den) (c.num *ℤ b.den) a.den second (omega (arith, pa)),
          parts_eq (swap_last a.num c.den b.den),
          parts_eq (swap_last c.num a.den b.den),
          parts_eq (swap_last b.num a.den c.den),
        ))
        pb in
    ground (arith, third)
