-- ===== src/Tests/Signals.antt =====
-- The theorems on the signal generator at concrete inputs.
use kh_optionbaz.Prelude.{
  ℕ, ◌≡◌, arith, max_ℤ, min_ℤ, ◌*ℤ◌, ◌+ℤ◌, abs, ◌⊎◌, refl, Bool, true, Option, none, some, List, [],
  ◌∷◌, All, ℤ, pos, ◌<ℤ◌, ratio, ltb_ℤ, ◌-ℤ◌,
}
use kh_optionbaz.Tests.{quotient, rates}
use kh_optionbaz.Tests.Trading.{limits}
use kh_optionbaz.Tests.Rankings.{sources, now}
use kh_optionbaz.Generator.{
  Signal, Generator, Settings, Part, LegGroup, process_leg_group, post_process, run_once,
}
use kh_optionbaz.Generator.Structures.{AllPairs, IsComplete, IsLeg, process_leg_group-Whole}
use kh_optionbaz.Generator.Repeats.{post_process_repeated}
use kh_optionbaz.Generator.Exits.{IsExitable, run_once-IsExitable}

abbrev unrounded : ℕ → ℤ → ℤ
unrounded n x = x

abbrev by_strike : Part → Part → Bool
by_strike p q = ltb_ℤ p.strike q.strike

-- A call on the contract of the tests of the screening, alone or as one of two legs.
abbrev signal_at : ℤ → Option ℕ → Signal
signal_at strike group = record {
  signal_id = 1;
  symbol = 7;
  strategy_name = 1;
  strike = strike;
  created_at = now;
  valid_until = 0;
  confidence = some (pos 80);
  sized = record {
    is_buy = true;
    suggested_price = pos 102;
    suggested_qty = pos 0;
    stop_loss = none;
    take_profit = none;
    contract_size = none;
    max_loss = none;
    risk_notes = none;
    round_trip_fees = none;
  };
  leg_group_id = group;
  leg_count = some 2;
  leg_ratio = some (pos 1);
  size_noted = some (pos 100);
}

abbrev settings : Settings
settings = record {
  config = record {
    dedupe_window_minutes = 60;
    min_confidence = some (pos 50);
    signal_validity_minutes = 30;
  };
  limits = record {
    account_equity = pos 10_000_000;
    risk_per_trade_pct = ratio (pos 1) (pos 1);
    max_position_pct = ratio (pos 5) (pos 1);
    max_contracts = pos 10;
    stop_loss_pct = ratio (pos 30) (pos 1);
    take_profit_pct = ratio (pos 50) (pos 1);
  };
  fees = rates;
  tradability = some (record { sources = sources; thresholds = limits (pos 100) });
}

abbrev quiet : Generator
quiet = record {
  records = [];
  dropped_groups = [];
  last_emitted = [];
  failed_symbols = [];
  strategy_errors = [];
}

abbrev two_legs : LegGroup
two_legs = record {
  group_id = 3;
  first = signal_at (pos 1000) (some 3);
  others = signal_at (pos 1100) (some 3) ∷ [];
}

process_leg_group-Whole_example :
    ((process_leg_group quotient unrounded by_strike settings two_legs quiet).0 ≡ [])
    ⊎ (IsComplete two_legs.first.leg_count 2
        × ((base : ℤ) × (pos 0 <ℤ base)
            × AllPairs
                (IsLeg quotient unrounded by_strike settings base)
                (two_legs.first ∷ two_legs.others)
                (process_leg_group quotient unrounded by_strike settings two_legs quiet).0))
process_leg_group-Whole_example =
    process_leg_group-Whole quotient unrounded by_strike settings two_legs quiet

abbrev plan : List (ℕ × Option (List (ℕ × Option (List Signal))))
plan = (1, some ((1, some (signal_at (pos 1000) none ∷ [])) ∷ (2, none) ∷ [])) ∷ (2, none) ∷ []

run_once-IsExitable_example :
    All (IsExitable quotient sources) (run_once quotient unrounded by_strike settings plan quiet).0
run_once-IsExitable_example =
    run_once-IsExitable quotient unrounded by_strike settings
      (record { sources = sources; thresholds = limits (pos 100) }) refl plan quiet

abbrev quick : Settings
quick = record settings { tradability = none }

abbrev emission : Option Signal × Generator
emission = post_process quotient unrounded quick true (signal_at (pos 1000) none) quiet

abbrev emitted_signal : Option Signal → Signal
emitted_signal none = signal_at (pos 0) none
emitted_signal (some s) = s

-- The same signal a second time.
post_process_repeated_example :
    (post_process quotient unrounded quick true (signal_at (pos 1000) none) emission.1).0 ≡ none
unfolding ◌-ℤ◌ post_process max_ℤ min_ℤ ◌*ℤ◌ ◌+ℤ◌ abs
post_process_repeated_example =
    post_process_repeated quotient unrounded quick (signal_at (pos 1000) none)
      (emitted_signal emission.0) quiet emission.1 refl (signal_at (pos 1000) none) refl
      (omega arith)
