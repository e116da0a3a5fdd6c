-- ===== src/Acknowledgement/Table.antt =====
-- The table of option_signal_bot/storage/acknowledgement.py: the last answer to a signal wins.
use kh_optionbaz.Prelude.{
  ℕ, ◌≡◌, ◌≢◌, refl, sym, ap, ◌∙◌, true, ==_refl, inl, inr, Bool-cases, Option-cases, Option, none,
  some, List, [], ◌∷◌, if◌then◌else◌,
}
use kh_optionbaz.Acknowledgement.{
  Acknowledgement, same_text, action_of, replace, record_ack, get_ack,
}
use kh_optionbaz.Acknowledgement.Callback.{same_text_sound}

same_text_refl : (xs : List ℕ) → same_text xs xs ≡ true
same_text_refl [] = refl
same_text_refl (x ∷ xs) = rw (==_refl x) (same_text_refl xs)

module _ (a : Acknowledgement) where
  get-own : (rows : List Acknowledgement) → get_ack a.signal_id (replace a rows) ≡ some a
  unfolding get_ack
  get-own [] = rw (same_text_refl a.signal_id) refl
  get-own (r ∷ rows) = elim (Bool-cases (same_text r.signal_id a.signal_id)) [
    | inl b ↦ rw b (get-own rows)
    | inr b ↦ rw b (rw b (get-own rows))
  ]

  get-other :
      (k : List ℕ) (rows : List Acknowledgement)
      → k ≢ a.signal_id
      → get_ack k (replace a rows) ≡ get_ack k rows
  unfolding get_ack
  get-other k [] n = elim (Bool-cases (same_text a.signal_id k)) [
    | inl b ↦ absurd (n (sym (same_text_sound a.signal_id k b)))
    | inr b ↦ rw b refl
  ]
  get-other k (r ∷ rows) n = elim (Bool-cases (same_text r.signal_id a.signal_id)) [
    | inl b ↦ elim (Bool-cases (same_text r.signal_id k)) [
      | inl c ↦
          absurd
            (n (sym (same_text_sound r.signal_id k c) ∙ same_text_sound r.signal_id a.signal_id b))
      | inr c ↦ rw b (rw c (get-other k rows n))
    ]
    | inr b ↦ rw b (ap (λ o. if same_text r.signal_id k then some r else o) (get-other k rows n))
  ]

-- An action that is valid is recorded, and is then what `get` answers for its signal; the answers to other signals stay.
record_ack-get :
    (signal_id action source : List ℕ) (remark : Option (List ℕ)) (moment : ℕ)
    (rows : List Acknowledgement)
    → action_of action ≢ none
    → (a : Acknowledgement) × (after : List Acknowledgement) × (record_ack signal_id action source
          remark moment rows
        ≡ some (a, after))
      × (get_ack signal_id after ≡ some a)
      × ((k : List ℕ) → k ≢ signal_id → get_ack k after ≡ get_ack k rows)
unfolding record_ack
record_ack-get signal_id action source remark moment rows v =
    elim (Option-cases (action_of action)) [
      | inl n ↦ absurd (v n)
      | inr (valid, e) ↦
          let a : Acknowledgement = record {
            signal_id = signal_id;
            acknowledged_at = moment;
            action = valid;
            source = source;
            note = remark;
          } in
          (a, replace a rows, rw e refl, get-own a rows, λ k n. get-other a k rows n)
    ]
