-- ===== src/WalkForward/Order.antt =====
-- The folds of option_signal_bot/backtest/walk_forward.py: a test never looks back.
use kh_optionbaz.Prelude.{
  ℕ, zero, suc, ◌+◌, ◌<◌, ◌≡◌, refl, arith, inl, inr, Bool-cases, false, ◌||◌, Option, List, [],
  ◌∷◌, All, leb_ℤ, leb_ℤ→≤ℤ, leb_ℤ→<ℤ, ℤ, pos, pos_part, ◌+ℤ◌, ◌≤ℤ◌, ◌<ℤ◌, int_laws,
}
use kh_optionbaz.WalkForward.{Fold, folds, step_of, fold_at, fold_loop, build_folds}

-- A fold tests after it trains, for as long as it is told, and inside the history.
pub record IsFold (total train_days test_days : ℤ) (f : Fold) : Type 0 where
  pub from_start : pos 0 ≤ℤ f.train_start
  pub trained : f.train_end ≡ f.train_start +ℤ train_days
  pub tested : f.test_end ≡ f.train_end +ℤ test_days
  pub later : f.train_end <ℤ f.test_end
  pub inside : f.test_end ≤ℤ total

-- Each fold starts `step` days after the one before it, and the last leaves no room for another.
abbrev pub Follow : ℤ → ℤ → ℤ → ℕ → ℤ → List Fold → Type 0
Follow total window step index start [] = total <ℤ start +ℤ window
Follow total window step index start (f ∷ fs) =
    (f.index ≡ index)
    × (f.train_start ≡ start)
    × Follow total window step (suc index) (start +ℤ step) fs

module _ (total train_days test_days step : ℤ) (t : pos 0 <ℤ train_days) (u : pos 0 <ℤ test_days)
    (s : pos 0 <ℤ step) where
  fold_loop-ends :
      (fuel index : ℕ) (start : ℤ)
      → pos 0 ≤ℤ start
      → total +ℤ pos 1 <ℤ start +ℤ train_days +ℤ test_days +ℤ pos fuel
      → 0 < fuel
      → (fs : List Fold) × (fold_loop total train_days test_days step fuel index start ≡ folds fs)
        × All (IsFold total train_days test_days) fs
        × Follow total (train_days +ℤ test_days) step index start fs
  unfolding fold_loop
  fold_loop-ends zero index start h k z = absurd (omega arith)
  fold_loop-ends (suc fuel) index start h k z =
      elim (Bool-cases (leb_ℤ (start +ℤ train_days +ℤ test_days) total)) [
        | inl b ↦
            let room = leb_ℤ→≤ℤ (start +ℤ train_days +ℤ test_days) total b in
            let (fs, e, good, follow) =
              fold_loop-ends fuel (suc index) (start +ℤ step) (omega (int_laws, h, s))
                (omega (int_laws, k, s)) (omega (int_laws, k, room)) in
            (
              fold_at total train_days test_days step index start ∷ fs,
              rw (b, e) refl,
              (
                record {
                  from_start = h;
                  trained = refl;
                  tested = refl;
                  later = omega (int_laws, u);
                  inside = room;
                },
                good,
              ),
              (refl, refl, follow),
            )
        | inr b ↦
            let full = leb_ℤ→<ℤ (start +ℤ train_days +ℤ test_days) total b in
            ([], rw b refl, tt, omega (int_laws, full))
      ]

-- With positive lengths, a positive step and `total + 2` units of fuel the loop ends. Every fold trains and tests
-- inside the history for the days that are asked for, and tests strictly after it trains; the folds
-- stand `step` days apart from day 0 on, numbered from 0, and stop where no more of them fits.
pub build_folds-ends :
    (total train_days test_days : ℤ) (step_days : Option ℤ)
    → pos 0 <ℤ train_days
    → pos 0 <ℤ test_days
    → pos 0 <ℤ step_of step_days test_days
    → (fs : List Fold) × (build_folds (2 + pos_part total) total train_days test_days step_days
        ≡ folds fs)
      × All (IsFold total train_days test_days) fs
      × Follow total (train_days +ℤ test_days) (step_of step_days test_days) 0 (pos 0) fs
unfolding build_folds
build_folds-ends total train_days test_days step_days t u s =
    let (fs, e, good, follow) =
      fold_loop-ends total train_days test_days (step_of step_days test_days) t u s
        (2 + pos_part total) 0 (pos 0) (omega arith) (omega (int_laws, t, u)) (omega arith) in
    let positive : (leb_ℤ train_days (pos 0) || leb_ℤ test_days (pos 0)) ≡ false = ground arith in
    (fs, rw (positive, e) refl, good, follow)
