-- ===== src/Generator.antt =====
-- option_signal_bot/signals/signal_generator.py: what becomes of the signals of the strategies, from the
-- confidence they need to the memory against repetition. A time is a number of seconds with its date.
-- What a strategy returns, or its exception, is an argument. `divide` and `round_to` are those of Risk.
mod Types
mod Groups
pub mod Passed
pub mod Structures
pub mod Exits
pub mod Repeats
unfoldable pub use Types.*
unfoldable pub use Groups.*
use kh_optionbaz.Prelude.{
  ℕ, suc, ◌+◌, ◌*◌, ◌==◌, Bool, true, false, not, ◌&&◌, ◌||◌, Option, none, some, List, [], ◌∷◌,
  ◌++◌, map, if◌then◌else◌, leb, ltb, ltb_ℤ, leb_ℤ, ℤ, pos, pos_part, ◌-ℤ◌, ◌*ℤ◌, max_ℤ, min_ℤ,
  floor_div, length, sort_by, same,
}
use kh_optionbaz.Fees.{FeeSchedule}
use kh_optionbaz.Risk
use kh_optionbaz.Risk.{RiskLimits, apply_risk}
use kh_optionbaz.Tradability.{
  Thresholds, TradabilityReport, Verdict, tradable, needs_review, rejected,
}
use kh_optionbaz.Screener.{Sources, Moment, evaluate_signal}

module _ (divide : ℤ → ℤ → ℤ) (round_to : ℕ → ℤ → ℤ) (settings : Settings) where
  -- `_is_tradable`: the result is recorded, whatever it is; an exception rejects the signal.
  abbrev pub recorded : Signal → Option TradabilityReport → Generator → Bool × Generator
  recorded s none g = (false, g)
  recorded s (some report) g =
      (is_approved report.verdict, record g { records = g.records ++ record_of s report ∷ [] })

  abbrev pub screened : Option Screening → Signal → Generator → Bool × Generator
  screened none s g = (true, g)
  screened (some k) s g =
      let report =
        evaluate_signal divide k.sources k.thresholds s.symbol s.sized.is_buy
          (some s.sized.suggested_qty) s.created_at in
      recorded s report g

  -- The end of `_post_process`, after the screening.
  abbrev pub emitted : Bool → Signal → Bool × Generator → Option Signal × Generator
  emitted allow_dedupe s (false, g) = (none, g)
  emitted false s (true, g) = (some s, g)
  emitted true s (true, g) =
      let now = s.created_at.stamp in
      if is_duplicate_key settings.config g (dedupe_key s) now
      then (none, g)
      else (some s, remember (dedupe_key s) now g)

  abbrev pub after_risk : Bool → Signal → Option Risk.Signal → Generator → Option Signal × Generator
  after_risk allow_dedupe s none g = (none, g)
  after_risk allow_dedupe s (some sized) g =
      let final = with_sized s sized settings.config.signal_validity_minutes in
      emitted allow_dedupe final (screened settings.tradability final g)

  -- `_post_process`
  unfoldable pub post_process : Bool → Signal → Generator → Option Signal × Generator
  unfolding too_unsure is_duplicate_key dedupe_key remember apply_risk
  post_process allow_dedupe s g =
      if too_unsure settings.config s
      then (none, g)
      else after_risk allow_dedupe s
          (apply_risk divide round_to settings.limits settings.fees s.sized
            (noted_size s.size_noted))
          g

-- `strategy_errors[name] = strategy_errors.get(name, 0) + 1`
abbrev pub count_error : ℕ → List (ℕ × ℕ) → List (ℕ × ℕ)
count_error name [] = (name, 1) ∷ []
count_error name ((n, count) ∷ counts) =
    let rest = count_error name counts in
    if n == name then (n, suc count) ∷ counts else (n, count) ∷ rest

-- `all_symbols_failed`, of the symbols that are configured.
unfoldable pub all_symbols_failed : List ℕ → Generator → Bool
all_symbols_failed [] g = false
all_symbols_failed (s ∷ planned) g = leb (length (s ∷ planned)) (length g.failed_symbols)

-- `text_before` is the order of the texts of two legs.
module _ (divide : ℤ → ℤ → ℤ) (round_to : ℕ → ℤ → ℤ) (text_before : Part → Part → Bool)
    (settings : Settings) where
  -- `_group_dedupe_key`
  unfoldable pub group_dedupe_key : ℕ → List Signal → Key
  group_dedupe_key strategy legs = record {
    strategy = strategy;
    is_group = true;
    parts = sort_by text_before (map part_of legs);
  }

  -- The loop over the legs, which stops at the first that is refused.
  unfoldable pub size_legs : List Signal → Generator → Sizing × Generator
  unfolding post_process
  size_legs [] g = (all_sized [], g)
  size_legs (s ∷ legs) g =
      next_leg s (post_process divide round_to settings false s g) (size_legs legs)

  -- The end of `_process_leg_group`, on the legs with the quantities of the risk calculator.
  abbrev pub emit_group : ℕ → List Signal → Generator → List Signal × Generator
  emit_group strategy [] g = ([], g)
  emit_group strategy (s ∷ legs) g =
      let base = base_qty (s ∷ legs) in
      let final = map (scaled base) (s ∷ legs) in
      let key = group_dedupe_key strategy final in
      let now = s.created_at.stamp in
      if leb_ℤ base (pos 0) || is_duplicate_key settings.config g key now
      then ([], g)
      else (final, remember key now g)

  abbrev pub after_sizing : ℕ → List Signal → ℕ → Sizing × Generator → List Signal × Generator
  after_sizing group legs strategy (blocked_at symbol, g) = (
    [],
    record g { dropped_groups = g.dropped_groups ++ dropped_by group legs strategy symbol ∷ [] },
  )
  after_sizing group legs strategy (all_sized sized, g) = emit_group strategy sized g

  -- `_process_leg_group`
  unfoldable pub process_leg_group : LegGroup → Generator → List Signal × Generator
  unfolding size_legs group_dedupe_key is_duplicate_key remember per_ratio
  process_leg_group group g =
      let legs = group.first ∷ group.others in
      let strategy = group.first.strategy_name in
      if length legs == expected_legs group.first.leg_count (length legs)
      then after_sizing group.group_id legs strategy (size_legs legs g)
      else ([], g)

  -- The two loops of `_process_batch`.
  unfoldable pub process_singles : List Signal → Generator → List Signal × Generator
  unfolding post_process
  process_singles [] g = ([], g)
  process_singles (s ∷ ss) g =
      let (final, h) = post_process divide round_to settings true s g in
      let (rest, k) = process_singles ss h in (append_some final rest, k)

  unfoldable pub process_groups : List LegGroup → Generator → List Signal × Generator
  unfolding process_leg_group
  process_groups [] g = ([], g)
  process_groups (group ∷ groups) g =
      let (accepted, h) = process_leg_group group g in
      let (rest, k) = process_groups groups h in (accepted ++ rest, k)

  -- `_process_batch`
  unfoldable pub process_batch : List Signal → Generator → List Signal × Generator
  unfolding process_singles process_groups
  process_batch raw g =
      let (singles, h) = process_singles (singles_of raw) g in
      let (structures, k) = process_groups (groups_from raw []) h in (singles ++ structures, k)

  -- A strategy with what it returns, `none` for an exception.
  abbrev pub run_strategy : ℕ × Option (List Signal) → Generator → List Signal × Generator
  run_strategy (name, none) g =
      ([], record g { strategy_errors = count_error name g.strategy_errors })
  run_strategy (name, some raw) g = process_batch raw g

  -- `generate_for_symbol`, past the context.
  unfoldable pub generate_for_symbol :
      List (ℕ × Option (List Signal)) → Generator → List Signal × Generator
  unfolding process_batch
  generate_for_symbol [] g = ([], g)
  generate_for_symbol (strategy ∷ strategies) g =
      let (signals, h) = run_strategy strategy g in
      let (rest, k) = generate_for_symbol strategies h in (signals ++ rest, k)

  -- A symbol with what its strategies return, `none` where its context fails.
  abbrev pub run_symbol :
      ℕ × Option (List (ℕ × Option (List Signal))) → Generator → List Signal × Generator
  run_symbol (symbol, none) g = ([], record g { failed_symbols = g.failed_symbols ++ symbol ∷ [] })
  run_symbol (symbol, some strategies) g = generate_for_symbol strategies g

  unfoldable pub run_symbols :
      List (ℕ × Option (List (ℕ × Option (List Signal)))) → Generator → List Signal × Generator
  unfolding generate_for_symbol
  run_symbols [] g = ([], g)
  run_symbols (symbol ∷ symbols) g =
      let (signals, h) = run_symbol symbol g in
      let (rest, k) = run_symbols symbols h in (signals ++ rest, k)

  -- `run_once`: the counts and the screening are those of this pass, the memory stays.
  unfoldable pub run_once :
      List (ℕ × Option (List (ℕ × Option (List Signal)))) → Generator → List Signal × Generator
  unfolding run_symbols
  run_once plan g = run_symbols plan (record {
    records = [];
    dropped_groups = [];
    last_emitted = g.last_emitted;
    failed_symbols = [];
    strategy_errors = [];
  })
