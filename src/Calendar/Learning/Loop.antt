-- ===== src/Calendar/Learning/Loop.antt =====
-- The loop of `learn_from_history` in option_signal_bot/market/trading_calendar.py.
use kh_optionbaz.Prelude.{
  ◌≡◌, ◌⊎◌, inl, inr, refl, arith, ℕ, zero, suc, ◌+◌, Bool, true, false, not, ◌&&◌, Bool-cases,
  List, ◌∷◌, length, if◌then◌else◌, ℤ, pos, ◌+ℤ◌, ◌≤ℤ◌, ◌<ℤ◌, leb_ℤ, int_laws, parts_eq, leb_ℤ→≤ℤ,
  leb_ℤ→<ℤ, eq_of_parts, same, member, same_sound,
}
use kh_optionbaz.Calendar.{is_weekend, is_gap, learn_days}

pub same_refl : (a : ℤ) → same a a ≡ true
same_refl a = ground arith

-- The set of the loop, and the days that it adds.
abbrev pub IsAdded : List ℤ → ℕ → ℤ → ℤ → Type 0
IsAdded days n cursor day =
    (is_weekend day ≡ false)
    × (member day days ≡ false)
    × (cursor ≤ℤ day)
    × (day <ℤ cursor +ℤ pos n)

pub member_cons :
    (k day : ℤ) (ks : List ℤ) → member k (day ∷ ks) ≡ true → (day ≡ k) ⊎ (member k ks ≡ true)
member_cons k day ks h = elim (Bool-cases (same day k)) [
  | inl b ↦ inl (same_sound day k b)
  | inr b ↦ inr (rw b at h)
]

pub kept_in :
    (b : Bool) (k day : ℤ) (ks : List ℤ)
    → member k ks ≡ true
    → member k (if b then day ∷ ks else ks) ≡ true
kept_in true k day ks h = elim (Bool-cases (same day k)) [ inl b ↦ rw b refl | inr b ↦ rw b h ]
kept_in false k day ks h = h

all_false :
    (a b c : Bool) → (not a && not b && not c) ≡ true → (a ≡ false) × (b ≡ false) × (c ≡ false)
all_false false false false h = (refl, refl, refl)
all_false false false true h = absurd cc
all_false false true c h = absurd cc
all_false true b c h = absurd cc

later-IsAdded :
    (days : List ℤ) (n : ℕ) (cursor day : ℤ)
    → IsAdded days n (cursor +ℤ pos 1) day
    → IsAdded days (suc n) cursor day
later-IsAdded days n cursor day (w, u, a, b) = (w, u, omega (int_laws, a), omega (int_laws, b))

added_in :
    (days holidays : List ℤ) (cursor day : ℤ)
    → cursor ≡ day
    → (is_weekend day ≡ false) × (member day days ≡ false)
    → member day (if is_gap days holidays cursor then cursor ∷ holidays else holidays) ≡ true
added_in days holidays cursor day e (w, u) = elim (Bool-cases (member day holidays)) [
  | inl m ↦ kept_in (is_gap days holidays cursor) day cursor holidays m
  | inr m ↦ rw (e, w, u, m, same_refl day) refl
]

pub learn_days_sound :
    (days : List ℤ) (n : ℕ) (cursor : ℤ) (holidays : List ℤ) (day : ℤ)
    → member day (learn_days days n cursor holidays).0 ≡ true
    → (member day holidays ≡ true) ⊎ IsAdded days n cursor day
unfolding learn_days
learn_days_sound days zero cursor holidays day h = inl h
learn_days_sound days (suc n) cursor holidays day h =
    elim (Bool-cases (is_gap days holidays cursor)) [
      | inr b ↦ elim (learn_days_sound days n (cursor +ℤ pos 1) holidays day (rw b at h)) [
        | inl m ↦ inl m
        | inr a ↦ inr (later-IsAdded days n cursor day a)
      ]
      | inl b ↦
          elim (learn_days_sound days n (cursor +ℤ pos 1) (cursor ∷ holidays) day (rw b at h)) [
            | inr a ↦ inr (later-IsAdded days n cursor day a)
            | inl m ↦ elim (member_cons day cursor holidays m) [
              | inr o ↦ inl o
              | inl e ↦
                  let (w, u, _) = all_false _ _ _ b in
                  inr (
                    rw (← e) w,
                    rw (← e) u,
                    omega (int_laws, parts_eq e),
                    omega (int_laws, parts_eq e),
                  )
            ]
          ]
    ]

pub learn_days_complete :
    (days : List ℤ) (n : ℕ) (cursor : ℤ) (holidays : List ℤ) (day : ℤ)
    → (member day holidays ≡ true) ⊎ IsAdded days n cursor day
    → member day (learn_days days n cursor holidays).0 ≡ true
unfolding learn_days
learn_days_complete days zero cursor holidays day (inl h) = h
learn_days_complete days zero cursor holidays day (inr (_, _, a, b)) =
    absurd (omega (int_laws, a, b))
learn_days_complete days (suc n) cursor holidays day (inl h) =
    learn_days_complete days n (cursor +ℤ pos 1) _ day
      (inl (kept_in (is_gap days holidays cursor) day cursor holidays h))
learn_days_complete days (suc n) cursor holidays day (inr (w, u, a, b)) =
    elim (Bool-cases (leb_ℤ day cursor)) [
      | inr c ↦
          let above = leb_ℤ→<ℤ day cursor c in
          learn_days_complete days n (cursor +ℤ pos 1) _ day
            (inr (w, u, omega (int_laws, above), omega (int_laws, b)))
      | inl c ↦
          let e : cursor ≡ day = eq_of_parts cursor day (omega (arith, a, leb_ℤ→≤ℤ day cursor c)) in
          learn_days_complete days n (cursor +ℤ pos 1) _ day
            (inl (added_in days holidays cursor day e (w, u)))
    ]

pub learn_days-length :
    (days : List ℤ) (n : ℕ) (cursor : ℤ) (holidays : List ℤ)
    → length (learn_days days n cursor holidays).0
      ≡ length holidays + (learn_days days n cursor holidays).1
unfolding learn_days
learn_days-length days zero cursor holidays = omega arith
learn_days-length days (suc n) cursor holidays = elim (Bool-cases (is_gap days holidays cursor)) [
  | inl b ↦ rw b (omega (arith, learn_days-length days n (cursor +ℤ pos 1) (cursor ∷ holidays)))
  | inr b ↦ rw b (learn_days-length days n (cursor +ℤ pos 1) holidays)
]
