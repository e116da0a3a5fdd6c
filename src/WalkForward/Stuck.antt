-- ===== src/WalkForward/Stuck.antt =====
-- `build_folds` of option_signal_bot/backtest/walk_forward.py with a negative step.
use kh_optionbaz.Prelude.{
  ℕ, zero, suc, ◌≡◌, refl, arith, true, false, ◌||◌, some, leb_ℤ, ℤ, pos, ◌+ℤ◌, ◌≤ℤ◌, ◌<ℤ◌,
  int_laws,
}
use kh_optionbaz.WalkForward.{out_of_fuel, step_of, fold_loop, build_folds}

module _ (total train_days test_days step : ℤ) (s : step ≤ℤ pos 0) where
  fold_loop-stuck :
      (fuel index : ℕ) (start : ℤ)
      → start +ℤ train_days +ℤ test_days ≤ℤ total
      → fold_loop total train_days test_days step fuel index start ≡ out_of_fuel
  unfolding fold_loop
  fold_loop-stuck zero index start h = refl
  fold_loop-stuck (suc fuel) index start h =
      let room : leb_ℤ (start +ℤ train_days +ℤ test_days) total ≡ true = ground arith in
      let rest = fold_loop-stuck fuel (suc index) (start +ℤ step) (omega (int_laws, h, s)) in
      rw (room, rest) refl

-- A negative step is not refused: where the lengths are positive and one fold fits, the loop ends with no amount of fuel.
pub build_folds-never_ends :
    (fuel : ℕ) (total train_days test_days step : ℤ)
    → pos 0 <ℤ train_days
    → pos 0 <ℤ test_days
    → train_days +ℤ test_days ≤ℤ total
    → step <ℤ pos 0
    → build_folds fuel total train_days test_days (some step) ≡ out_of_fuel
unfolding build_folds
build_folds-never_ends fuel total train_days test_days step t u room s =
    let positive : (leb_ℤ train_days (pos 0) || leb_ℤ test_days (pos 0)) ≡ false = ground arith in
    let same : step_of (some step) test_days ≡ step = ground arith in
    let stuck =
      fold_loop-stuck total train_days test_days step (omega arith) fuel 0 (pos 0)
        (omega (int_laws, room)) in
    rw (positive, same, stuck) refl
