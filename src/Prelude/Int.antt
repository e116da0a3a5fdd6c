-- ===== src/Prelude/Int.antt =====
-- Python's integers over the native numbers. Sums and orders go through the two parts of an
-- integer, which are numbers that `omega` reads; products go through the distributive laws.
use Prim.Native.Nat.{ℕ, suc, ◌+◌, ◌-◌, ◌*◌, ◌≤◌, ◌<◌, ◌/◌}
use mathlib.Core.Path.{◌≡◌, ap}
use mathlib.Core.Logic.{◌⊎◌}
use mathlib.Core.Bool.{Bool, true, false}
use native.Mathlib.Omega.{arith}
use package.kh_optionbaz.Prelude.Tests.{ltb, leb, if◌then◌else◌}

-- `negsuc n` is -(n + 1).
pub data ℤ : Type 0 where
  pos : ℕ → ℤ
  negsuc : ℕ → ℤ

abbrev pub pos_part : ℤ → ℕ
pos_part (pos n) = n
pos_part (negsuc n) = 0

abbrev pub neg_part : ℤ → ℕ
neg_part (pos n) = 0
neg_part (negsuc n) = suc n

abbrev pub sub_ℕ : ℕ → ℕ → ℤ
sub_ℕ a b = if leb b a then pos (a - b) else negsuc (b - a - 1)

infixl 65 ◌+ℤ◌ ◌-ℤ◌
infixl 70 ◌*ℤ◌
infix 50 ◌≤ℤ◌ ◌<ℤ◌
unfoldable pub ◌+ℤ◌ : ℤ → ℤ → ℤ
a +ℤ b = sub_ℕ (pos_part a + pos_part b) (neg_part a + neg_part b)

unfoldable pub ◌-ℤ◌ : ℤ → ℤ → ℤ
a -ℤ b = sub_ℕ (pos_part a + neg_part b) (neg_part a + pos_part b)

unfoldable pub ◌*ℤ◌ : ℤ → ℤ → ℤ
a *ℤ b =
    sub_ℕ (pos_part a * pos_part b + neg_part a * neg_part b)
      (pos_part a * neg_part b + neg_part a * pos_part b)

abbrev pub ◌≤ℤ◌ : ℤ → ℤ → Type 0
a ≤ℤ b = pos_part a + neg_part b ≤ pos_part b + neg_part a

abbrev pub ◌<ℤ◌ : ℤ → ℤ → Type 0
a <ℤ b = pos_part a + neg_part b < pos_part b + neg_part a

abbrev pub ltb_ℤ : ℤ → ℤ → Bool
ltb_ℤ a b = ltb (pos_part a + neg_part b) (pos_part b + neg_part a)

abbrev pub leb_ℤ : ℤ → ℤ → Bool
leb_ℤ a b = leb (pos_part a + neg_part b) (pos_part b + neg_part a)

pub eq_of_parts : (a b : ℤ) → pos_part a + neg_part b ≡ pos_part b + neg_part a → a ≡ b
eq_of_parts a b h = ground arith

pub +ℤ_parts :
    (a b : ℤ)
    → pos_part (a +ℤ b) + neg_part a + neg_part b ≡ neg_part (a +ℤ b) + pos_part a + pos_part b
unfolding ◌+ℤ◌
+ℤ_parts a b = ground arith

pub -ℤ_parts :
    (a b : ℤ)
    → pos_part (a -ℤ b) + neg_part a + pos_part b ≡ neg_part (a -ℤ b) + pos_part a + neg_part b
unfolding ◌-ℤ◌
-ℤ_parts a b = ground arith

sub_ℕ_parts : (a b : ℕ) → pos_part (sub_ℕ a b) + b ≡ neg_part (sub_ℕ a b) + a
sub_ℕ_parts a b = ground arith

pub *ℤ_parts :
    (a b : ℤ)
    → pos_part (a *ℤ b) + (pos_part a * neg_part b + neg_part a * pos_part b)
      ≡ neg_part (a *ℤ b) + (pos_part a * pos_part b + neg_part a * neg_part b)
unfolding ◌*ℤ◌
*ℤ_parts a b = sub_ℕ_parts _ _

pub ruleset int_laws = (arith, +ℤ_parts, -ℤ_parts, eq_of_parts)

-- Products. The equations of the parts of a factor are multiplied by the other factor's parts.
pub *ℤ_comm : (a b : ℤ) → a *ℤ b ≡ b *ℤ a
*ℤ_comm a b = omega (arith, eq_of_parts, *ℤ_parts a b, *ℤ_parts b a)

module _ (a b c : ℤ) where
  pub +ℤ-*ℤ : (a +ℤ b) *ℤ c ≡ a *ℤ c +ℤ b *ℤ c
  +ℤ-*ℤ = omega (
    int_laws,
    *ℤ_parts (a +ℤ b) c,
    *ℤ_parts a c,
    *ℤ_parts b c,
    ap (λ (t : ℕ). t * pos_part c) (+ℤ_parts a b),
    ap (λ (t : ℕ). t * neg_part c) (+ℤ_parts a b),
  )

  pub -ℤ-*ℤ : (a -ℤ b) *ℤ c ≡ a *ℤ c -ℤ b *ℤ c
  -ℤ-*ℤ = omega (
    int_laws,
    *ℤ_parts (a -ℤ b) c,
    *ℤ_parts a c,
    *ℤ_parts b c,
    ap (λ (t : ℕ). t * pos_part c) (-ℤ_parts a b),
    ap (λ (t : ℕ). t * neg_part c) (-ℤ_parts a b),
  )

  pub *ℤ_assoc : a *ℤ b *ℤ c ≡ a *ℤ (b *ℤ c)
  *ℤ_assoc = omega (
    int_laws,
    *ℤ_parts (a *ℤ b) c,
    *ℤ_parts a (b *ℤ c),
    ap (λ (t : ℕ). t * pos_part c) (*ℤ_parts a b),
    ap (λ (t : ℕ). t * neg_part c) (*ℤ_parts a b),
    ap (λ (t : ℕ). pos_part a * t) (*ℤ_parts b c),
    ap (λ (t : ℕ). neg_part a * t) (*ℤ_parts b c),
  )

pub *ℤ-+ℤ : (a b c : ℤ) → a *ℤ (b +ℤ c) ≡ a *ℤ b +ℤ a *ℤ c
*ℤ-+ℤ a b c = rw (*ℤ_comm a (b +ℤ c), *ℤ_comm a b, *ℤ_comm a c) (+ℤ-*ℤ b c a)

pub *ℤ-zero : (a : ℤ) → a *ℤ pos 0 ≡ pos 0
*ℤ-zero a = omega (arith, eq_of_parts, *ℤ_parts a (pos 0))

pub zero-*ℤ : (a : ℤ) → pos 0 *ℤ a ≡ pos 0
zero-*ℤ a = omega (arith, eq_of_parts, *ℤ_parts (pos 0) a)

pub one-*ℤ : (a : ℤ) → pos 1 *ℤ a ≡ a
one-*ℤ a = omega (arith, eq_of_parts, *ℤ_parts (pos 1) a)

-- A product of numbers that are not negative.
pub *ℤ_nonneg : (a b : ℤ) → pos 0 ≤ℤ a → pos 0 ≤ℤ b → pos 0 ≤ℤ a *ℤ b
*ℤ_nonneg (pos a) (pos b) h k = omega (arith, *ℤ_parts (pos a) (pos b))
*ℤ_nonneg (pos a) (negsuc b) h k = absurd (omega arith)
*ℤ_nonneg (negsuc a) b h k = absurd (omega arith)

pub *ℤ_mono : (a b c : ℤ) → a ≤ℤ b → pos 0 ≤ℤ c → a *ℤ c ≤ℤ b *ℤ c
*ℤ_mono a b c h k = omega (
  int_laws,
  *ℤ_nonneg (b -ℤ a) c (omega int_laws) k,
  ap pos_part (-ℤ-*ℤ b a c),
  ap neg_part (-ℤ-*ℤ b a c),
)

unfoldable pub abs : ℤ → ℤ
abs a = if ltb_ℤ a (pos 0) then pos 0 -ℤ a else a

unfoldable pub min_ℤ : ℤ → ℤ → ℤ
min_ℤ a b = if ltb_ℤ b a then b else a

unfoldable pub max_ℤ : ℤ → ℤ → ℤ
max_ℤ a b = if ltb_ℤ a b then b else a

-- Floor division by a positive number, as Python's `//`.
unfoldable pub floor_div : ℤ → ℕ → ℤ
floor_div (pos a) n = pos (a / n)
floor_div (negsuc a) n = negsuc (a / n)

pub min_ℤ_bounds :
    (a b : ℤ) → (min_ℤ a b ≤ℤ a) × (min_ℤ a b ≤ℤ b) × ((a ≤ℤ min_ℤ a b) ⊎ (b ≤ℤ min_ℤ a b))
unfolding min_ℤ
min_ℤ_bounds a b = ground arith

pub max_ℤ_bounds :
    (a b : ℤ) → (a ≤ℤ max_ℤ a b) × (b ≤ℤ max_ℤ a b) × ((max_ℤ a b ≤ℤ a) ⊎ (max_ℤ a b ≤ℤ b))
unfolding max_ℤ
max_ℤ_bounds a b = ground arith

pub leb_ℤ→≤ℤ : (a b : ℤ) → leb_ℤ a b ≡ true → a ≤ℤ b
leb_ℤ→≤ℤ a b h = ground arith

-- An equation between integers as one that `omega` reads.
pub parts_eq : {a b : ℤ} → a ≡ b → pos_part a + neg_part b ≡ pos_part b + neg_part a
parts_eq {a} {b} e = rw e (omega arith)

pub *ℤ_mono_right : (a b c : ℤ) → a ≤ℤ b → pos 0 ≤ℤ c → c *ℤ a ≤ℤ c *ℤ b
*ℤ_mono_right a b c h k =
    omega (arith, *ℤ_mono a b c h k, parts_eq (*ℤ_comm a c), parts_eq (*ℤ_comm b c))

pub leb_ℤ→<ℤ : (a b : ℤ) → leb_ℤ a b ≡ false → b <ℤ a
leb_ℤ→<ℤ a b h = ground arith
