-- ===== src/Prelude/Sort.antt =====
-- Python's stable `list.sort`, by a strict test of what comes first: the result holds the same
-- elements and no element stands behind one that it comes before.
use mathlib.Core.List.{Perm}
use mathlib.Core.List.Perm
use mathlib.Core.Path.{◌≡◌, refl}
use mathlib.Core.Logic.{inl, inr}
use native.Mathlib.Omega.{arith}
use mathlib.Core.Bool.{Bool, true, false, not, ◌&&◌, ◌||◌}
use mathlib.Core.List.{List, [], ◌∷◌}
use package.kh_optionbaz.Prelude.Tests.{if◌then◌else◌, Bool-cases}
use package.kh_optionbaz.Prelude.Lists.{All, sum_of}
use package.kh_optionbaz.Prelude.Int.{ℤ, ◌+ℤ◌, int_laws}

-- The order by a first key and then by a second one.
abbrev pub then_by {ℓ} : {A : Type ℓ} → (A → A → Bool) → (A → A → Bool) → A → A → Bool
then_by first second x y = first x y || (not (first y x) && second x y)

-- A strict order whose ties are an equivalence: what `sort_by` needs.
pub record IsOrder {ℓ} {A : Type ℓ} (before : A → A → Bool) : Type ℓ where
  pub asym : (x y : A) → before x y ≡ true → before y x ≡ false
  pub trans : (x y z : A) → before y x ≡ false → before z y ≡ false → before z x ≡ false

pub then_by-IsOrder {ℓ} :
    {A : Type ℓ} (f g : A → A → Bool) → IsOrder f → IsOrder g → IsOrder (then_by f g)
then_by-IsOrder f g p q = record {
  asym = λ x y h. ground (arith, p.asym x y, p.asym y x, q.asym x y);
  trans = λ x y z h k. ground (arith, p.trans x y z, p.trans y z x, p.trans z x y, q.trans x y z);
}

module _ {ℓ} {A : Type ℓ} (before : A → A → Bool) where
  unfoldable pub place : A → List A → List A
  place x [] = x ∷ []
  place x (y ∷ ys) = let rest = place x ys in if before y x then y ∷ rest else x ∷ y ∷ ys

  unfoldable pub sort_by : List A → List A
  unfolding place
  sort_by [] = []
  sort_by (x ∷ xs) = place x (sort_by xs)

  place-perm : (x : A) (ys : List A) → Perm (place x ys) (x ∷ ys)
  unfolding place
  place-perm x [] = Perm.refl _
  place-perm x (y ∷ ys) = elim (Bool-cases (before y x)) [
    | inl b ↦ rw b (Perm.trans (Perm.cons y (place-perm x ys)) (Perm.swap x y ys))
    | inr n ↦ rw n (Perm.refl _)
  ]

  pub sort_by-perm : (xs : List A) → Perm (sort_by xs) xs
  unfolding sort_by
  sort_by-perm [] = Perm.refl _
  sort_by-perm (x ∷ xs) = Perm.trans (place-perm x (sort_by xs)) (Perm.cons x (sort_by-perm xs))

  pub All-place {κ} : (P : A → Type κ) (x : A) (ys : List A) → P x → All P ys → All P (place x ys)
  unfolding place
  All-place P x [] p q = (p, tt)
  All-place P x (y ∷ ys) p q = elim (Bool-cases (before y x)) [
    | inl b ↦ rw b (q.0, All-place P x ys p q.1)
    | inr n ↦ rw n (p, q)
  ]

  pub All-sort_by {κ} : (P : A → Type κ) (xs : List A) → All P xs → All P (sort_by xs)
  unfolding sort_by
  All-sort_by P [] q = tt
  All-sort_by P (x ∷ xs) q = All-place P x (sort_by xs) q.0 (All-sort_by P xs q.1)

  -- No later element comes before an earlier one.
  abbrev pub IsSorted : List A → Type 0
  IsSorted [] = Unit
  IsSorted (x ∷ xs) = All (λ y. before y x ≡ false) xs × IsSorted xs

  module _ (asym : (x y : A) → before x y ≡ true → before y x ≡ false)
      (trans : (x y z : A) → before y x ≡ false → before z y ≡ false → before z x ≡ false) where
    All_trans :
        (x y : A) (zs : List A)
        → before y x ≡ false
        → All (λ z. before z y ≡ false) zs
        → All (λ z. before z x ≡ false) zs
    All_trans x y [] b q = tt
    All_trans x y (z ∷ zs) b q = (trans x y z b q.0, All_trans x y zs b q.1)

    place-IsSorted : (x : A) (ys : List A) → IsSorted ys → IsSorted (place x ys)
    unfolding place
    place-IsSorted x [] s = (tt, tt)
    place-IsSorted x (y ∷ ys) s = elim (Bool-cases (before y x)) [
      | inl b ↦
          rw b (All-place (λ z. before z y ≡ false) x ys (asym y x b) s.0, place-IsSorted x ys s.1)
      | inr n ↦ rw n ((n, All_trans x y ys n s.0), s)
    ]

    pub sort_by-IsSorted : (xs : List A) → IsSorted (sort_by xs)
    unfolding sort_by
    sort_by-IsSorted [] = tt
    sort_by-IsSorted (x ∷ xs) = place-IsSorted x (sort_by xs) (sort_by-IsSorted xs)

  sum-place : (f : A → ℤ) (x : A) (ys : List A) → sum_of f (place x ys) ≡ f x +ℤ sum_of f ys
  unfolding place
  sum-place f x [] = refl
  sum-place f x (y ∷ ys) = elim (Bool-cases (before y x)) [
    | inl b ↦ rw b (rw (sum-place f x ys) (omega int_laws))
    | inr n ↦ rw n refl
  ]

  pub sum_of-sort_by : (f : A → ℤ) (xs : List A) → sum_of f (sort_by xs) ≡ sum_of f xs
  unfolding sort_by
  sum_of-sort_by f [] = refl
  sum_of-sort_by f (x ∷ xs) = rw (sum-place f x (sort_by xs), sum_of-sort_by f xs) refl

  All-place_inv {κ} : (P : A → Type κ) (x : A) (ys : List A) → All P (place x ys) → P x × All P ys
  unfolding place
  All-place_inv P x [] h = (h.0, tt)
  All-place_inv P x (y ∷ ys) h = elim (Bool-cases (before y x)) [
    | inl b ↦ let h' = rw b at h in let (p, q) = All-place_inv P x ys h'.1 in (p, (h'.0, q))
    | inr n ↦ let h' = rw n at h in (h'.0, h'.1)
  ]

  pub All-sort_by_inv {κ} : (P : A → Type κ) (xs : List A) → All P (sort_by xs) → All P xs
  unfolding sort_by
  All-sort_by_inv P [] h = tt
  All-sort_by_inv P (x ∷ xs) h =
      let (p, q) = All-place_inv P x (sort_by xs) h in (p, All-sort_by_inv P xs q)
