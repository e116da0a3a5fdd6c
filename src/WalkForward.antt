-- ===== src/WalkForward.antt =====
-- option_signal_bot/backtest/walk_forward.py: `build_folds`. A day is an index into the history, and
-- the loop runs on fuel.
pub mod Order
pub mod Stuck
use kh_optionbaz.Prelude.{
  ℕ, zero, suc, Bool, ◌||◌, Option, none, some, List, [], ◌∷◌, if◌then◌else◌, leb_ℤ, ltb_ℤ, ℤ, pos,
  ◌+ℤ◌, ◌-ℤ◌,
}

pub record Fold : Type 0 where
  pub index : ℕ
  pub train_start : ℤ
  pub train_end : ℤ
  pub test_end : ℤ

pub data Folds : Type 0 where
  value_error : Folds
  out_of_fuel : Folds
  folds : List Fold → Folds

abbrev pub add_fold : Fold → Folds → Folds
add_fold f value_error = value_error
add_fold f out_of_fuel = out_of_fuel
add_fold f (folds fs) = folds (f ∷ fs)

-- `step_days or test_days`
abbrev pub step_of : Option ℤ → ℤ → ℤ
step_of none test_days = test_days
step_of (some n) test_days =
    if leb_ℤ n (pos 0) then (if leb_ℤ (pos 0) n then test_days else n) else n

module _ (total train_days test_days step : ℤ) where
  abbrev pub fold_at : ℕ → ℤ → Fold
  fold_at index start = record {
    index = index;
    train_start = start;
    train_end = start +ℤ train_days;
    test_end = start +ℤ train_days +ℤ test_days;
  }

  -- The loop.
  unfoldable pub fold_loop : ℕ → ℕ → ℤ → Folds
  fold_loop zero index start = out_of_fuel
  fold_loop (suc fuel) index start =
      let rest = fold_loop fuel (suc index) (start +ℤ step) in
      if leb_ℤ (start +ℤ train_days +ℤ test_days) total
      then add_fold (fold_at index start) rest
      else folds []

-- `build_folds`, with the fuel for its loop.
unfoldable pub build_folds : ℕ → ℤ → ℤ → ℤ → Option ℤ → Folds
unfolding fold_loop
build_folds fuel total train_days test_days step_days =
    if leb_ℤ train_days (pos 0) || leb_ℤ test_days (pos 0)
    then value_error
    else fold_loop total train_days test_days (step_of step_days test_days) fuel 0 (pos 0)
