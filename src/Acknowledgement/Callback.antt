-- ===== src/Acknowledgement/Callback.antt =====
-- `parse_callback` of option_signal_bot/storage/acknowledgement.py reads what `_button` writes.
use mathlib.Core.Option.{some-injective}
use kh_optionbaz.Prelude.{
  ℕ, ◌≡◌, ◌≢◌, refl, ap, ◌∙◌, Bool, true, ◌==◌, ==_iff, inl, inr, Bool-cases, Option-cases, Option,
  none, some, List, [], ◌∷◌, ◌++◌,
}
use kh_optionbaz.Acknowledgement.{
  Action, seen, taken, skipped, action_text, same_text, action_of, colon, tag_text, callback_data,
  cut, strip, with_id, second_part, parse_callback,
}

cut_sound : (text head tail : List ℕ) → cut text ≡ some (head, tail) → text ≡ head ++ (colon ∷ tail)
cut_sound [] head tail e = absurd cc
cut_sound (c ∷ cs) head tail e = elim (Bool-cases (c == colon)) [
  | inl b ↦
      let same = some-injective _ _ (rw b at e) in
      rw (← ap (λ (p : List ℕ × List ℕ). p.0) same, ← ap (λ (p : List ℕ × List ℕ). p.1) same)
        (ap (λ (d : ℕ). d ∷ cs) ((==_iff c colon).0 b))
  | inr b ↦ elim (Option-cases (cut cs)) [
    | inl n ↦ absurd (cc (rw (b, n) at e))
    | inr ((front, back), f) ↦
        let same = some-injective _ _ (rw (b, f) at e) in
        rw (← ap (λ (p : List ℕ × List ℕ). p.0) same, ← ap (λ (p : List ℕ × List ℕ). p.1) same)
          (ap (λ (l : List ℕ). c ∷ l) (cut_sound cs front back f))
  ]
]

pub same_text_sound : (xs ys : List ℕ) → same_text xs ys ≡ true → xs ≡ ys
same_text_sound [] [] e = refl
same_text_sound [] (y ∷ ys) e = absurd cc
same_text_sound (x ∷ xs) [] e = absurd cc
same_text_sound (x ∷ xs) (y ∷ ys) e = elim (Bool-cases (x == y)) [
  | inl b ↦ rw ((==_iff x y).0 b) (ap (λ (l : List ℕ). y ∷ l) (same_text_sound xs ys (rw b at e)))
  | inr b ↦ absurd (cc (rw b at e))
]

action_of_sound :
    (text : List ℕ) (action : Action) → action_of text ≡ some action → text ≡ action_text action
unfolding action_of
action_of_sound text action e = elim (Bool-cases (same_text text (action_text seen))) [
  | inl b ↦ rw (← some-injective _ _ (rw b at e)) (same_text_sound text (action_text seen) b)
  | inr b ↦ elim (Bool-cases (same_text text (action_text taken))) [
    | inl c ↦
        rw (← some-injective _ _ (rw (b, c) at e)) (same_text_sound text (action_text taken) c)
    | inr c ↦ elim (Bool-cases (same_text text (action_text skipped))) [
      | inl d ↦
          rw (← some-injective _ _ (rw (b, c, d) at e))
            (same_text_sound text (action_text skipped) d)
      | inr d ↦ absurd (cc (rw (b, c, d) at e))
    ]
  ]
]

module _ (is_space : ℕ → Bool) where
  -- A button that is pressed is read back as its own action and signal, where the identifier of the
  -- signal is not empty and has no blanks around it; it may hold colons.
  pub parse_callback-callback_data :
      (action : Action) (signal_id : List ℕ)
      → signal_id ≢ []
      → strip is_space signal_id ≡ signal_id
      → parse_callback is_space (callback_data action signal_id) ≡ some (action, signal_id)
  unfolding parse_callback callback_data action_of
  parse_callback-callback_data seen [] n e = absurd (n refl)
  parse_callback-callback_data taken [] n e = absurd (n refl)
  parse_callback-callback_data skipped [] n e = absurd (n refl)
  parse_callback-callback_data seen (c ∷ cs) n e = rw e refl
  parse_callback-callback_data taken (c ∷ cs) n e = rw e refl
  parse_callback-callback_data skipped (c ∷ cs) n e = rw e refl

  with_id-exact :
      (o : Option Action) (own : List ℕ) (action : Action) (signal_id : List ℕ)
      → with_id is_space o own ≡ some (action, signal_id)
      → (o ≡ some action) × (own ≡ signal_id) × (signal_id ≢ [])
  with_id-exact none own action signal_id e = absurd cc
  with_id-exact (some a) [] action signal_id e = absurd cc
  with_id-exact (some a) (c ∷ cs) action signal_id e =
      let same = some-injective _ _ e in
      let own : c ∷ cs ≡ signal_id = ap (λ (p : Action × List ℕ). p.1) same in
      (ap (λ (p : Action × List ℕ). some p.0) same, own, λ z. absurd (cc (own ∙ z)))

  second_part-exact :
      (tag rest : List ℕ) (action : Action) (signal_id : List ℕ)
      → second_part is_space (some (tag, rest)) ≡ some (action, signal_id)
      → (raw : List ℕ) × (tag ++ (colon ∷ rest) ≡ callback_data action raw)
        × (strip is_space raw ≡ signal_id)
        × (signal_id ≢ [])
  unfolding callback_data
  second_part-exact tag rest action signal_id e = elim (Bool-cases (same_text tag tag_text)) [
    | inr b ↦ absurd (cc (rw b at e))
    | inl b ↦ elim (Option-cases (cut rest)) [
      | inl n ↦ absurd (cc (rw (b, n) at e))
      | inr ((front, raw), f) ↦
          let (which, stripped, full) =
            with_id-exact (action_of front) (strip is_space raw) action signal_id
              (rw (b, f) at e) in
          (
            raw,
            rw
                (
                  same_text_sound tag tag_text b,
                  cut_sound rest front raw f,
                  action_of_sound front action which,
                )
                refl,
            stripped,
            full,
          )
    ]
  ]

  -- What is read as an answer is `ack:`, the action, a colon and the identifier, which is not empty
  -- once the blanks around it are gone; nothing else is taken for an answer.
  pub parse_callback-exact :
      (text : List ℕ) (action : Action) (signal_id : List ℕ)
      → parse_callback is_space text ≡ some (action, signal_id)
      → (raw : List ℕ) × (text ≡ callback_data action raw)
        × (strip is_space raw ≡ signal_id)
        × (signal_id ≢ [])
  unfolding parse_callback callback_data
  parse_callback-exact text action signal_id e = elim (Option-cases (cut text)) [
    | inl n ↦ absurd (cc (rw n at e))
    | inr ((tag, rest), f) ↦
        let (raw, same, stripped, full) = second_part-exact tag rest action signal_id (rw f at e) in
        (raw, cut_sound text tag rest f ∙ same, stripped, full)
  ]
