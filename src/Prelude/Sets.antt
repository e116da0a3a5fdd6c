-- ===== src/Prelude/Sets.antt =====
-- Sets of integers, as lists without duplicates.
use mathlib.Core.Path.{◌≡◌, subst}
use mathlib.Core.Logic.{inl, inr}
use mathlib.Core.Bool.{Bool, true, false, ◌&&◌, ◌||◌}
use mathlib.Core.List.{List, [], ◌∷◌}
use native.Mathlib.Omega.{arith}
use package.kh_optionbaz.Prelude.Tests.{if◌then◌else◌, Bool-cases}
use package.kh_optionbaz.Prelude.Int.{ℤ, leb_ℤ, eq_of_parts}
use package.kh_optionbaz.Prelude.Lists.{All}

-- Whether two amounts are the same.
abbrev pub same : ℤ → ℤ → Bool
same a b = leb_ℤ a b && leb_ℤ b a

abbrev pub member : ℤ → List ℤ → Bool
member k [] = false
member k (n ∷ ns) = same n k || member k ns

-- The set of a list.
unfoldable pub distinct : List ℤ → List ℤ
distinct [] = []
distinct (k ∷ ks) = let rest = distinct ks in if member k rest then rest else k ∷ rest

pub same_sound : (a b : ℤ) → same a b ≡ true → a ≡ b
same_sound a b h = ground (arith, eq_of_parts a b)

-- The set of a list has the same elements.
module _ (P : ℤ → Type 0) where
  pub member_sound : (k : ℤ) (ns : List ℤ) → member k ns ≡ true → All P ns → P k
  member_sound k [] h ps = absurd cc
  member_sound k (n ∷ ns) h ps = elim (Bool-cases (same n k)) [
    | inl b ↦ subst P (same_sound n k b) ps.0
    | inr b ↦ member_sound k ns (rw b at h) ps.1
  ]

  pub distinct_All : (ks : List ℤ) → All P ks → All P (distinct ks)
  unfolding distinct
  distinct_All [] ps = tt
  distinct_All (k ∷ ks) ps = elim (Bool-cases (member k (distinct ks))) [
    | inl b ↦ rw b (distinct_All ks ps.1)
    | inr b ↦ rw b (ps.0, distinct_All ks ps.1)
  ]

  pub distinct_All_inv : (ks : List ℤ) → All P (distinct ks) → All P ks
  unfolding distinct
  distinct_All_inv [] ps = tt
  distinct_All_inv (k ∷ ks) ps = elim (Bool-cases (member k (distinct ks))) [
    | inl b ↦ let ps' = rw b at ps in (member_sound k (distinct ks) b ps', distinct_All_inv ks ps')
    | inr b ↦ let ps' = rw b at ps in (ps'.0, distinct_All_inv ks ps'.1)
  ]
