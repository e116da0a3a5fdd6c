-- ===== src/Generator/Passed.antt =====
-- What a signal has passed when option_signal_bot/signals/signal_generator.py lets it through.
use mathlib.Core.Option.{some-injective}
use mathlib.Core.Path.{subst}
use kh_optionbaz.Prelude.{
  ℕ, ◌≡◌, refl, ap, sym, inl, inr, Bool, true, false, Bool-cases, Option, none, some, ℤ,
}
use kh_optionbaz.Risk
use kh_optionbaz.Risk.{apply_risk}
use kh_optionbaz.Tradability.{TradabilityReport, Verdict, tradable, needs_review, rejected}
use kh_optionbaz.Screener.{evaluate_signal}
use kh_optionbaz.Generator.{
  Signal, Generator, Settings, Screening, too_unsure, noted_size, is_approved, with_sized, recorded,
  screened, emitted, after_risk, post_process, is_duplicate_key, dedupe_key,
}

approved_tradable : (v : Verdict) → is_approved v ≡ true → v ≡ tradable
approved_tradable tradable e = refl
approved_tradable needs_review e = absurd cc
approved_tradable rejected e = absurd cc

-- The two parts of a pair that is given by an equation.
pub first_of : {A B : Type 0} {p q : A × B} → p ≡ q → p.0 ≡ q.0
first_of e = ap (λ p. p.0) e

pub second_of : {A B : Type 0} {p q : A × B} → p ≡ q → p.1 ≡ q.1
second_of e = ap (λ p. p.1) e

module _ (divide : ℤ → ℤ → ℤ) (round_to : ℕ → ℤ → ℤ) (settings : Settings) where
  -- The screening, where it is on, found the signal tradable.
  abbrev pub ApprovedBy : Option Screening → Signal → Type 0
  ApprovedBy none s = Unit
  ApprovedBy (some k) s =
      (report : TradabilityReport) × (evaluate_signal divide k.sources k.thresholds s.symbol
          s.sized.is_buy (some s.sized.suggested_qty) s.created_at
        ≡ some report)
      × (report.verdict ≡ tradable)

  -- A signal and what is made of it: sure enough, of the size that the risk calculator allows, and
  -- tradable at that size.
  pub record IsPassed (s final : Signal) : Type 0 where
    pub sure : too_unsure settings.config s ≡ false
    pub risk : Risk.Signal
    pub allowed :
        apply_risk divide round_to settings.limits settings.fees s.sized (noted_size s.size_noted)
        ≡ some risk
    pub final_is : final ≡ with_sized s risk settings.config.signal_validity_minutes
    pub approved : ApprovedBy settings.tradability final

  recorded_approved :
      (s : Signal) (report : Option TradabilityReport) (g : Generator)
      → (recorded divide round_to settings s report g).0 ≡ true
      → (r : TradabilityReport) × (report ≡ some r) × (r.verdict ≡ tradable)
  recorded_approved s none g e = absurd (cc e)
  recorded_approved s (some r) g e = (r, refl, approved_tradable r.verdict e)

  screened-ApprovedBy :
      (k : Option Screening) (s : Signal) (g : Generator)
      → (screened divide round_to settings k s g).0 ≡ true
      → ApprovedBy k s
  screened-ApprovedBy none s g e = tt
  screened-ApprovedBy (some k) s g e = recorded_approved s _ g e

  emitted_passes :
      (allow : Bool) (s final : Signal) (r : Bool × Generator) (h : Generator)
      → emitted divide round_to settings allow s r ≡ (some final, h)
      → (s ≡ final) × (r.0 ≡ true)
  emitted_passes allow s final (false, g) h e = absurd (cc (first_of e))
  emitted_passes false s final (true, g) h e = (some-injective _ _ (first_of e), refl)
  emitted_passes true s final (true, g) h e =
      elim (Bool-cases (is_duplicate_key settings.config g (dedupe_key s) s.created_at.stamp)) [
        | inl b ↦ absurd (cc (rw b at e))
        | inr b ↦ (some-injective _ _ (first_of (rw b at e)), refl)
      ]

  pub post_process-IsPassed :
      (allow : Bool) (s final : Signal) (g h : Generator)
      → post_process divide round_to settings allow s g ≡ (some final, h)
      → IsPassed s final
  unfolding post_process
  post_process-IsPassed allow s final g h e = elim (Bool-cases (too_unsure settings.config s)) [
    | inl b ↦ absurd (cc (rw b at e))
    | inr b ↦ sized_passes b _ refl (rw b at e)
  ]
    where
      sized_passes :
          too_unsure settings.config s ≡ false
          → (m : Option Risk.Signal)
          → apply_risk divide round_to settings.limits settings.fees s.sized
              (noted_size s.size_noted)
            ≡ m
          → after_risk divide round_to settings allow s m g ≡ (some final, h)
          → IsPassed s final
      sized_passes b none k f = absurd (cc (first_of f))
      sized_passes b (some risk) k f =
          let made = with_sized s risk settings.config.signal_validity_minutes in
          let (same, ok) =
            emitted_passes allow made final
              (screened divide round_to settings settings.tradability made g) h f in
          record {
            sure = b;
            risk = risk;
            allowed = k;
            final_is = sym same;
            approved =
                subst (ApprovedBy settings.tradability) same
                  (screened-ApprovedBy settings.tradability made g ok);
          }
