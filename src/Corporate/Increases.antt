-- ===== src/Corporate/Increases.antt =====
-- A capital increase that is reported twice counts once, in option_signal_bot/market/corporate_actions.py.
use kh_optionbaz.Prelude.{
  ◌≡◌, refl, arith, inl, inr, ℕ, true, false, ◌||◌, Bool-cases, Option, none, some, List, [], ◌∷◌,
  ◌++◌, All, ℤ,
}
use kh_optionbaz.Corporate.{
  CorporateAction, ShareChange, from_share_change, same_number, same_change, seen_in, add_new,
  collect,
}

-- No two actions with the same change of shares.
abbrev pub IsEachOnce : List CorporateAction → Type 0
IsEachOnce [] = Unit
IsEachOnce (a ∷ rest) = (seen_in a rest ≡ false) × IsEachOnce rest

same_number_sym : (a b : Option ℤ) → same_number a b ≡ same_number b a
same_number_sym none none = refl
same_number_sym none (some b) = refl
same_number_sym (some a) none = refl
same_number_sym (some a) (some b) = ground arith

same_change_sym : (a b : CorporateAction) → same_change a b ≡ same_change b a
same_change_sym a b =
    rw (same_number_sym a.shares_old b.shares_old, same_number_sym a.shares_new b.shares_new) refl

same_number_refl : (a : Option ℤ) → same_number a a ≡ true
same_number_refl none = refl
same_number_refl (some a) = ground arith

seen_in-append :
    (a : CorporateAction) (xs ys : List CorporateAction)
    → seen_in a (xs ++ ys) ≡ (seen_in a xs || seen_in a ys)
seen_in-append a [] ys = refl
seen_in-append a (x ∷ xs) ys = elim (Bool-cases (same_change x a)) [
  | inl b ↦ rw b refl
  | inr b ↦ rw b (seen_in-append a xs ys)
]

add_last-IsEachOnce :
    (xs : List CorporateAction) (a : CorporateAction)
    → seen_in a xs ≡ false
    → IsEachOnce xs
    → IsEachOnce (xs ++ a ∷ [])
add_last-IsEachOnce [] a n d = (refl, tt)
add_last-IsEachOnce (x ∷ xs) a n d = elim (Bool-cases (same_change x a)) [
  | inl b ↦ absurd (cc (rw b at n))
  | inr b ↦
      let rest = rw b at n in
      (
        rw (seen_in-append x xs (a ∷ []), d.0, same_change_sym a x, b) refl,
        add_last-IsEachOnce xs a rest d.1,
      )
]

add_new-IsEachOnce :
    (o : Option CorporateAction) (seen : List CorporateAction)
    → IsEachOnce seen
    → IsEachOnce (add_new o seen)
add_new-IsEachOnce none seen d = d
add_new-IsEachOnce (some a) seen d = elim (Bool-cases (seen_in a seen)) [
  | inl b ↦ rw b d
  | inr b ↦ rw b (add_last-IsEachOnce seen a b d)
]

add_new_keeps :
    (o : Option CorporateAction) (b : CorporateAction) (seen : List CorporateAction)
    → seen_in b seen ≡ true
    → seen_in b (add_new o seen) ≡ true
add_new_keeps none b seen h = h
add_new_keeps (some a) b seen h = elim (Bool-cases (seen_in a seen)) [
  | inl c ↦ rw c h
  | inr c ↦ rw (c, seen_in-append b seen (a ∷ []), h) refl
]

add_new_adds :
    (a : CorporateAction) (seen : List CorporateAction) → seen_in a (add_new (some a) seen) ≡ true
add_new_adds a seen = elim (Bool-cases (seen_in a seen)) [
  | inl c ↦ rw (c, c) refl
  | inr c ↦
      rw
        (
          c,
          seen_in-append a seen (a ∷ []),
          c,
          same_number_refl a.shares_old,
          same_number_refl a.shares_new,
        )
        refl
]

module _ (underlying : ℕ) where
  collect_keeps :
      (rows : List ShareChange) (b : CorporateAction) (seen : List CorporateAction)
      → seen_in b seen ≡ true
      → seen_in b (collect underlying rows seen) ≡ true
  unfolding collect
  collect_keeps [] b seen h = h
  collect_keeps (row ∷ rows) b seen h =
      collect_keeps rows b _ (add_new_keeps (from_share_change underlying row) b seen h)

  -- A row that gives an action.
  abbrev pub IsFound : List CorporateAction → ShareChange → Type 0
  IsFound found row =
      (a : CorporateAction) → from_share_change underlying row ≡ some a → seen_in a found ≡ true

  -- Whatever rows are reported, no change of shares is taken twice, and each that a row gives is taken.
  pub collect-IsEachOnce :
      (rows : List ShareChange) (seen : List CorporateAction)
      → IsEachOnce seen
      → IsEachOnce (collect underlying rows seen)
        × All (IsFound (collect underlying rows seen)) rows
  unfolding collect
  collect-IsEachOnce [] seen d = (d, tt)
  collect-IsEachOnce (row ∷ rows) seen d =
      let next = add_new (from_share_change underlying row) seen in
      let (once, found) =
        collect-IsEachOnce rows next
          (add_new-IsEachOnce (from_share_change underlying row) seen d) in
      (once, ((λ a e. collect_keeps rows a next (rw e (add_new_adds a seen))), found))
