-- ===== src/Generator/Repeats.antt =====
-- The memory against repetition of option_signal_bot/signals/signal_generator.py.
use mathlib.Core.Option.{some-injective}
use mathlib.Core.Path.{subst}
use kh_optionbaz.Prelude.{
  ℕ, ◌≡◌, refl, ap, sym, arith, inl, inr, Bool, true, false, Bool-cases, ==_refl, Option, none,
  some, List, [], ◌∷◌, ℤ, pos, ◌*◌, ◌<ℤ◌, ◌-ℤ◌, ltb_ℤ, same,
}
use kh_optionbaz.Risk
use kh_optionbaz.Risk.{apply_risk, evaluate_risk, is_tradable}
use kh_optionbaz.Generator.{
  Signal, Generator, Settings, Screening, Key, Part, key_eq, parts_match, part_eq, bool_eq,
  emitted_at, remember, dedupe_key, is_duplicate_key, too_unsure, noted_size, with_sized, recorded,
  screened, emitted, after_risk, post_process,
}
use kh_optionbaz.Generator.Passed.{first_of, second_of}

bool_eq_refl : (b : Bool) → bool_eq b b ≡ true
bool_eq_refl true = refl
bool_eq_refl false = refl

same_refl : (n : ℤ) → same n n ≡ true
same_refl n = ground arith

part_eq_refl : (p : Part) → part_eq p p ≡ true
part_eq_refl p = rw (==_refl p.symbol, bool_eq_refl p.side_buy, same_refl p.strike) refl

parts_match_refl : (ps : List Part) → parts_match ps ps ≡ true
parts_match_refl [] = refl
parts_match_refl (p ∷ ps) = rw (part_eq_refl p, parts_match_refl ps) refl

key_eq_refl : (k : Key) → key_eq k k ≡ true
unfolding key_eq
key_eq_refl k = rw (==_refl k.strategy, bool_eq_refl k.is_group, parts_match_refl k.parts) refl

module _ (divide : ℤ → ℤ → ℤ) (round_to : ℕ → ℤ → ℤ) (settings : Settings) where
  -- The screening leaves the memory as it is.
  recorded_memory :
      (s : Signal) (report : Option _) (g : Generator)
      → (recorded divide round_to settings s report g).1.last_emitted ≡ g.last_emitted
  recorded_memory s none g = refl
  recorded_memory s (some r) g = refl

  screened_memory :
      (k : Option Screening) (s : Signal) (g : Generator)
      → (screened divide round_to settings k s g).1.last_emitted ≡ g.last_emitted
  screened_memory none s g = refl
  screened_memory (some k) s g = recorded_memory s _ g

  -- A key that the memory holds at a recent time.
  abbrev IsRecent : Key → ℕ → Generator → Type 0
  IsRecent key now g = is_duplicate_key settings.config g key now ≡ true

  emitted_refused :
      (s : Signal) (r : Bool × Generator)
      → IsRecent (dedupe_key s) s.created_at.stamp r.1
      → (emitted divide round_to settings true s r).0 ≡ none
  emitted_refused s (false, g) d = refl
  emitted_refused s (true, g) d = rw d refl

  after_risk_refused :
      (s : Signal) (m : Option Risk.Signal) (g : Generator)
      → ((risk : Risk.Signal) → m ≡ some risk → risk.is_buy ≡ s.sized.is_buy)
      → IsRecent (dedupe_key s) s.created_at.stamp g
      → (after_risk divide round_to settings true s m g).0 ≡ none
  unfolding is_duplicate_key dedupe_key
  after_risk_refused s none g k d = refl
  after_risk_refused s (some risk) g k d =
      let final = with_sized s risk settings.config.signal_validity_minutes in
      emitted_refused final (screened divide round_to settings settings.tradability final g)
        (rw (screened_memory settings.tradability final g, k risk refl) d)

  apply_risk_side :
      (s : Signal) (risk : Risk.Signal)
      → apply_risk divide round_to settings.limits settings.fees s.sized (noted_size s.size_noted)
        ≡ some risk
      → risk.is_buy ≡ s.sized.is_buy
  unfolding apply_risk
  apply_risk_side s risk e =
      let tradable = is_tradable (
        evaluate_risk divide round_to settings.limits settings.fees s.sized
          (noted_size s.size_noted)) in
      elim (Bool-cases tradable) [
        | inl b ↦ ap (λ (r : Risk.Signal). r.is_buy) (sym (some-injective _ _ (rw b at e)))
        | inr b ↦ absurd (cc (rw b at e))
      ]

  post_process_refused :
      (s : Signal) (g : Generator)
      → IsRecent (dedupe_key s) s.created_at.stamp g
      → (post_process divide round_to settings true s g).0 ≡ none
  unfolding post_process
  post_process_refused s g d = elim (Bool-cases (too_unsure settings.config s)) [
    | inl b ↦ rw b refl
    | inr b ↦ rw b (after_risk_refused s _ g (apply_risk_side s) d)
  ]

  -- What is emitted is remembered under its key.
  emitted_remembered :
      (s final : Signal) (r : Bool × Generator) (h : Generator)
      → emitted divide round_to settings true s r ≡ (some final, h)
      → emitted_at (dedupe_key s) h.last_emitted ≡ some s.created_at.stamp
  unfolding remember
  emitted_remembered s final (false, g) h e = absurd (cc (first_of e))
  emitted_remembered s final (true, g) h e =
      elim (Bool-cases (is_duplicate_key settings.config g (dedupe_key s) s.created_at.stamp)) [
        | inl b ↦ absurd (cc (rw b at e))
        | inr b ↦
            let stored = second_of (rw b at e) in
            subst
              (λ (k : Generator).
                emitted_at (dedupe_key s) k.last_emitted ≡ some s.created_at.stamp)
              stored (rw (key_eq_refl (dedupe_key s)) refl)
      ]

  after_risk_remembered :
      (s final : Signal) (m : Option Risk.Signal) (g h : Generator)
      → ((risk : Risk.Signal) → m ≡ some risk → risk.is_buy ≡ s.sized.is_buy)
      → after_risk divide round_to settings true s m g ≡ (some final, h)
      → emitted_at (dedupe_key s) h.last_emitted ≡ some s.created_at.stamp
  unfolding dedupe_key
  after_risk_remembered s final none g h k e = absurd (cc (first_of e))
  after_risk_remembered s final (some risk) g h k e =
      let made = with_sized s risk settings.config.signal_validity_minutes in
      rw⁻¹ (k risk refl) (
        emitted_remembered made final
          (screened divide round_to settings settings.tradability made g) h e)

  post_process_remembered :
      (s final : Signal) (g h : Generator)
      → post_process divide round_to settings true s g ≡ (some final, h)
      → emitted_at (dedupe_key s) h.last_emitted ≡ some s.created_at.stamp
  unfolding post_process
  post_process_remembered s final g h e = elim (Bool-cases (too_unsure settings.config s)) [
    | inl b ↦ absurd (cc (rw b at e))
    | inr b ↦ after_risk_remembered s final _ g h (apply_risk_side s) (rw b at e)
  ]

  -- In the state that the emission of a single signal leaves, no other one of the same strategy, symbol,
  -- side and strike that was created less than the window after it is emitted, whatever its price and
  -- its confidence are and whatever the screening says of it.
  pub post_process_repeated :
      (s final : Signal) (g h : Generator)
      → post_process divide round_to settings true s g ≡ (some final, h)
      → (again : Signal) → dedupe_key again ≡ dedupe_key s
      → pos again.created_at.stamp -ℤ pos s.created_at.stamp
        <ℤ pos (settings.config.dedupe_window_minutes * 60)
      → (post_process divide round_to settings true again h).0 ≡ none
  unfolding is_duplicate_key
  post_process_repeated s final g h e again same_key soon =
      let stored = post_process_remembered s final g h e in
      let within : ltb_ℤ (pos again.created_at.stamp -ℤ pos s.created_at.stamp)
            (pos (settings.config.dedupe_window_minutes * 60))
          ≡ true =
        ground arith in
      post_process_refused again h (rw (same_key, stored) within)
