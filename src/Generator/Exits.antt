-- ===== src/Generator/Exits.antt =====
-- From the strategies to the order book: what option_signal_bot/signals/signal_generator.py emits with
-- the screening on can be closed again.
use mathlib.Core.Path.{subst}
use kh_optionbaz.Prelude.{
  ℕ, ◌≡◌, refl, sym, arith, inl, inr, Bool, true, Option, none, some, List, [], ◌∷◌, All,
  All-append, ℤ, pos, ◌≤ℤ◌, ◌<ℤ◌, max_ℤ, max_ℤ_bounds, *ℤ_mono_right,
}
use kh_optionbaz.Screener.{Sources, ListedContract, evaluate_signal}
use kh_optionbaz.Screener.Exits.{CanExit, evaluate_symbol-CanExit}
use kh_optionbaz.Generator.{
  Signal, Generator, Settings, Screening, Part, LegGroup, ratio_or_one, append_some, singles_of,
  groups_from, post_process, process_leg_group, process_singles, process_groups, process_batch,
  run_strategy, generate_for_symbol, run_symbol, run_symbols, run_once,
}
use kh_optionbaz.Generator.Passed.{IsPassed, ApprovedBy, post_process-IsPassed}
use kh_optionbaz.Generator.Structures.{IsLeg, AllPairs, process_leg_group-Whole}

-- The contract of a signal is listed, and an order of at least its quantity on the side of the exit is
-- filled completely.
pub record IsExitable (divide : ℤ → ℤ → ℤ) (sources : Sources) (out : Signal) : Type 0 where
  pub contract : ListedContract
  pub quantity : ℤ
  pub listed : sources.resolve_contract out.symbol ≡ some contract
  pub covers : out.sized.suggested_qty ≤ℤ quantity
  pub exit : CanExit divide sources contract out.sized.is_buy quantity

module _ (divide : ℤ → ℤ → ℤ) (round_to : ℕ → ℤ → ℤ) (text_before : Part → Part → Bool)
    (settings : Settings) (screening : Screening) (on : settings.tradability ≡ some screening) where
  abbrev Exitable : Signal → Type 0
  Exitable = IsExitable divide screening.sources

  approved-IsExitable :
      (s : Signal) → ApprovedBy divide round_to settings (some screening) s → Exitable s
  unfolding evaluate_signal
  approved-IsExitable s (report, e, v) =
      let quantity = max_ℤ s.sized.suggested_qty (pos 1) in
      let (c, found, _, exit) =
        evaluate_symbol-CanExit divide screening.sources screening.thresholds s.symbol
          s.sized.is_buy quantity s.created_at report e v in
      record {
        contract = c;
        quantity = quantity;
        listed = found;
        covers = (max_ℤ_bounds s.sized.suggested_qty (pos 1)).0;
        exit = exit;
      }

  passed-IsExitable :
      (s final : Signal) → IsPassed divide round_to settings s final → Exitable final
  passed-IsExitable s final p =
      approved-IsExitable final
        (subst (λ k. ApprovedBy divide round_to settings k final) on p.approved)

  leg-IsExitable :
      (base : ℤ) (leg out : Signal)
      → pos 0 <ℤ base
      → IsLeg divide round_to text_before settings base leg out
      → Exitable out
  leg-IsExitable base leg out positive l =
      let r = ratio_or_one l.checked.leg_ratio in
      let bounds = max_ℤ_bounds r (pos 1) in
      let less =
        *ℤ_mono_right r (max_ℤ r (pos 1)) base (omega (arith, bounds)) (omega (arith, positive)) in
      let whole = passed-IsExitable leg l.checked l.passed in
      subst Exitable (sym l.out_is) (record {
        contract = whole.contract;
        quantity = whole.quantity;
        listed = whole.listed;
        covers = omega (arith, less, l.within, whole.covers);
        exit = whole.exit;
      })

  legs-IsExitable :
      (base : ℤ) (legs out : List Signal)
      → pos 0 <ℤ base
      → AllPairs (IsLeg divide round_to text_before settings base) legs out
      → All Exitable out
  legs-IsExitable base [] [] p a = tt
  legs-IsExitable base [] (u ∷ us) p a = absurd a
  legs-IsExitable base (s ∷ legs) [] p a = tt
  legs-IsExitable base (s ∷ legs) (u ∷ us) p a =
      (leg-IsExitable base s u p a.0, legs-IsExitable base legs us p a.1)

  group-IsExitable :
      (group : LegGroup) (g : Generator)
      → All Exitable (process_leg_group divide round_to text_before settings group g).0
  group-IsExitable group g =
      elim (process_leg_group-Whole divide round_to text_before settings group g) [
        | inl e ↦ subst (All Exitable) (sym e) tt
        | inr (_, (base, positive, pairs)) ↦
            legs-IsExitable base (group.first ∷ group.others) _ positive pairs
      ]

  append_some-IsExitable :
      (s : Signal) (r : Option Signal × Generator) (rest : List Signal)
      → ((final : Signal) (k : Generator)
          → r ≡ (some final, k)
          → IsPassed divide round_to settings s final)
      → All Exitable rest
      → All Exitable (append_some r.0 rest)
  append_some-IsExitable s (none, k) rest p h = h
  append_some-IsExitable s (some final, k) rest p h =
      (passed-IsExitable s final (p final k refl), h)

  singles-IsExitable :
      (ss : List Signal) (g : Generator)
      → All Exitable (process_singles divide round_to text_before settings ss g).0
  unfolding process_singles
  singles-IsExitable [] g = tt
  singles-IsExitable (s ∷ ss) g =
      let r = post_process divide round_to settings true s g in
      append_some-IsExitable s r _
        (λ final k e. post_process-IsPassed divide round_to settings true s final g k e)
        (singles-IsExitable ss r.1)

  groups-IsExitable :
      (groups : List LegGroup) (g : Generator)
      → All Exitable (process_groups divide round_to text_before settings groups g).0
  unfolding process_groups
  groups-IsExitable [] g = tt
  groups-IsExitable (group ∷ groups) g =
      let h = (process_leg_group divide round_to text_before settings group g).1 in
      All-append Exitable _ _ (group-IsExitable group g) (groups-IsExitable groups h)

  batch-IsExitable :
      (raw : List Signal) (g : Generator)
      → All Exitable (process_batch divide round_to text_before settings raw g).0
  unfolding process_batch
  batch-IsExitable raw g =
      let h = (process_singles divide round_to text_before settings (singles_of raw) g).1 in
      All-append Exitable _ _ (singles-IsExitable (singles_of raw) g)
        (groups-IsExitable (groups_from raw []) h)

  strategy-IsExitable :
      (plan : ℕ × Option (List Signal)) (g : Generator)
      → All Exitable (run_strategy divide round_to text_before settings plan g).0
  strategy-IsExitable (name, none) g = tt
  strategy-IsExitable (name, some raw) g = batch-IsExitable raw g

  generate_for_symbol-IsExitable :
      (plan : List (ℕ × Option (List Signal))) (g : Generator)
      → All Exitable (generate_for_symbol divide round_to text_before settings plan g).0
  unfolding generate_for_symbol
  generate_for_symbol-IsExitable [] g = tt
  generate_for_symbol-IsExitable (strategy ∷ plan) g =
      let h = (run_strategy divide round_to text_before settings strategy g).1 in
      All-append Exitable _ _ (strategy-IsExitable strategy g)
        (generate_for_symbol-IsExitable plan h)

  symbol-IsExitable :
      (plan : ℕ × Option (List (ℕ × Option (List Signal)))) (g : Generator)
      → All Exitable (run_symbol divide round_to text_before settings plan g).0
  symbol-IsExitable (symbol, none) g = tt
  symbol-IsExitable (symbol, some plan) g = generate_for_symbol-IsExitable plan g

  symbols-IsExitable :
      (plan : List (ℕ × Option (List (ℕ × Option (List Signal))))) (g : Generator)
      → All Exitable (run_symbols divide round_to text_before settings plan g).0
  unfolding run_symbols
  symbols-IsExitable [] g = tt
  symbols-IsExitable (symbol ∷ plan) g =
      let h = (run_symbol divide round_to text_before settings symbol g).1 in
      All-append Exitable _ _ (symbol-IsExitable symbol g) (symbols-IsExitable plan h)

  -- With the screening on, whatever the strategies return and whatever fails, each signal that a pass
  -- emits, alone or as a leg of a structure, is on a listed contract whose side of the exit fills an
  -- order of at least its quantity.
  pub run_once-IsExitable :
      (plan : List (ℕ × Option (List (ℕ × Option (List Signal))))) (g : Generator)
      → All Exitable (run_once divide round_to text_before settings plan g).0
  unfolding run_once
  run_once-IsExitable plan g = symbols-IsExitable plan _
