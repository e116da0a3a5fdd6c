-- ===== src/Generator/Types.antt =====
-- The records of option_signal_bot/signals/signal_generator.py, the keys against repetition and the tests
-- of a signal. A time is a number of seconds with its date. The texts of the keys are taken apart.
use kh_optionbaz.Prelude.{
  ℕ, suc, ◌+◌, ◌*◌, ◌==◌, Bool, true, false, not, ◌&&◌, ◌||◌, Option, none, some, List, [], ◌∷◌,
  if◌then◌else◌, ltb_ℤ, ℤ, pos, ◌-ℤ◌, same,
}
use kh_optionbaz.Fees.{FeeSchedule}
use kh_optionbaz.Risk
use kh_optionbaz.Risk.{RiskLimits, apply_risk}
use kh_optionbaz.Tradability.{
  Thresholds, TradabilityReport, Verdict, tradable, needs_review, rejected,
}
use kh_optionbaz.Screener.{Sources, Moment}

-- The fields that are read and written here; those of the risk calculator are in `sized`. The last four
-- are the entries of `metadata`, `none` where one is missing (or, for the group, empty).
pub record Signal : Type 0 where
  pub signal_id : ℕ
  pub symbol : ℕ
  pub strategy_name : ℕ
  pub strike : ℤ
  pub created_at : Moment
  pub valid_until : ℕ
  pub confidence : Option ℤ
  pub sized : Risk.Signal
  pub leg_group_id : Option ℕ
  pub leg_count : Option ℕ
  pub leg_ratio : Option ℤ
  pub size_noted : Option ℤ

pub record GeneratorConfig : Type 0 where
  pub dedupe_window_minutes : ℕ
  pub min_confidence : Option ℤ
  pub signal_validity_minutes : ℕ

-- `ScreeningRecord` of market/tradability.py
pub record ScreeningRecord : Type 0 where
  pub symbol : ℕ
  pub strategy : ℕ
  pub side_buy : Bool
  pub quantity : ℤ
  pub report : TradabilityReport
  pub leg_group_id : Option ℕ
  pub signal_id : ℕ

pub record DroppedGroup : Type 0 where
  pub leg_group_id : ℕ
  pub strategy : ℕ
  pub legs : List ℕ
  pub blocked_by : ℕ

-- A leg in a key.
pub record Part : Type 0 where
  pub symbol : ℕ
  pub side_buy : Bool
  pub strike : ℤ

-- The text of a key, taken apart.
pub record Key : Type 0 where
  pub strategy : ℕ
  pub is_group : Bool
  pub parts : List Part

-- What an object of the class keeps from one signal to the next: the summary of the screening,
-- `_last_emitted` and the counts of failures.
pub record Generator : Type 0 where
  pub records : List ScreeningRecord
  pub dropped_groups : List DroppedGroup
  pub last_emitted : List (Key × ℕ)
  pub failed_symbols : List ℕ
  pub strategy_errors : List (ℕ × ℕ)

abbrev pub bool_eq : Bool → Bool → Bool
bool_eq a b = (a && b) || (not a && not b)

abbrev pub part_eq : Part → Part → Bool
part_eq p q = (p.symbol == q.symbol) && bool_eq p.side_buy q.side_buy && same p.strike q.strike

abbrev pub parts_match : List Part → List Part → Bool
parts_match [] [] = true
parts_match (p ∷ ps) (q ∷ qs) = part_eq p q && parts_match ps qs
parts_match _ _ = false

unfoldable pub key_eq : Key → Key → Bool
key_eq k l =
    (k.strategy == l.strategy) && bool_eq k.is_group l.is_group && parts_match k.parts l.parts

-- `_last_emitted.get(key)`, and the assignment: the latest entry of a key counts.
abbrev pub emitted_at : Key → List (Key × ℕ) → Option ℕ
emitted_at key [] = none
emitted_at key ((k, time) ∷ rest) = if key_eq k key then some time else emitted_at key rest

unfoldable pub remember : Key → ℕ → Generator → Generator
remember key time g = record g { last_emitted = (key, time) ∷ g.last_emitted }

abbrev pub part_of : Signal → Part
part_of s = record { symbol = s.symbol; side_buy = s.sized.is_buy; strike = s.strike }

-- `_dedupe_key`
unfoldable pub dedupe_key : Signal → Key
dedupe_key s = record { strategy = s.strategy_name; is_group = false; parts = part_of s ∷ [] }

abbrev pub recent : ℤ → ℕ → Option ℕ → Bool
recent window now none = false
recent window now (some previous) = ltb_ℤ (pos now -ℤ pos previous) window

-- `_is_duplicate_key`, and with `_dedupe_key` also `_is_duplicate`.
unfoldable pub is_duplicate_key : GeneratorConfig → Generator → Key → ℕ → Bool
is_duplicate_key cfg g key now =
    recent (pos (cfg.dedupe_window_minutes * 60)) now (emitted_at key g.last_emitted)

-- `reset_dedupe_cache`
unfoldable pub reset_dedupe_cache : Generator → Generator
reset_dedupe_cache g = record g { last_emitted = [] }

abbrev or_nothing : Option ℤ → ℤ
or_nothing none = pos 0
or_nothing (some n) = n

-- The first test of `_post_process`.
unfoldable pub too_unsure : GeneratorConfig → Signal → Bool
too_unsure cfg s = elim cfg.min_confidence [
  | none ↦ false
  | some least ↦ ltb_ℤ (or_nothing s.confidence) least
]

abbrev pub noted_size : Option ℤ → ℤ
noted_size none = pos 1000
noted_size (some n) = n

abbrev pub ratio_or_one : Option ℤ → ℤ
ratio_or_one none = pos 1
ratio_or_one (some n) = n

abbrev pub is_approved : Verdict → Bool
is_approved tradable = true
is_approved needs_review = false
is_approved rejected = false

-- The screener, with what it asks.
pub record Screening : Type 0 where
  pub sources : Sources
  pub thresholds : Thresholds

-- The settings of an object of the class: `tradability` is `none` where the screening is off.
pub record Settings : Type 0 where
  pub config : GeneratorConfig
  pub limits : RiskLimits
  pub fees : FeeSchedule
  pub tradability : Option Screening

abbrev pub record_of : Signal → TradabilityReport → ScreeningRecord
record_of s report = record {
  symbol = s.symbol;
  strategy = s.strategy_name;
  side_buy = s.sized.is_buy;
  quantity = s.sized.suggested_qty;
  report = report;
  leg_group_id = s.leg_group_id;
  signal_id = s.signal_id;
}

abbrev pub with_sized : Signal → Risk.Signal → ℕ → Signal
with_sized s sized validity = record s {
  sized = sized;
  valid_until = s.created_at.stamp + validity * 60;
}

-- `ScreeningSummary.counts` of market/tradability.py
pub record VerdictCounts : Type 0 where
  pub tradable_count : ℕ
  pub review_count : ℕ
  pub rejected_count : ℕ

abbrev pub count_verdict : Verdict → VerdictCounts → VerdictCounts
count_verdict tradable c = record c { tradable_count = suc c.tradable_count }
count_verdict needs_review c = record c { review_count = suc c.review_count }
count_verdict rejected c = record c { rejected_count = suc c.rejected_count }

unfoldable pub counts : List ScreeningRecord → VerdictCounts
counts [] = record { tradable_count = 0; review_count = 0; rejected_count = 0 }
counts (r ∷ rs) = count_verdict r.report.verdict (counts rs)
