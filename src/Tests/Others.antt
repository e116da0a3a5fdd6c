-- ===== src/Tests/Others.antt =====
-- The theorems on the remaining components at concrete inputs.
use kh_optionbaz.Prelude.{
  ℕ, ◌+◌, ◌-◌, ◌≡◌, ◌≢◌, ◌↔◌, ◌≤◌, ◌<◌, refl, arith, Bool, true, none, some, List, [], ◌∷◌, ◌==◌,
  All, pos, negsuc, ◌+ℤ◌,
}
use kh_optionbaz.WalkForward.{Fold, folds, out_of_fuel, build_folds}
use kh_optionbaz.WalkForward.Order.{build_folds-ends, IsFold, Follow}
use kh_optionbaz.WalkForward.Stuck.{build_folds-never_ends}
use kh_optionbaz.Schedule.{
  RecordingWindow, midnight, decide, window_valid, session_open, closing_grace, span,
}
use kh_optionbaz.Schedule.Window.{decide_iff}
use kh_optionbaz.Acknowledgement.{taken, callback_data, parse_callback, strip}
use kh_optionbaz.Acknowledgement.Callback.{parse_callback-callback_data, parse_callback-exact}

build_folds-ends_example :
    (fs : List Fold) × (build_folds 102 (pos 100) (pos 60) (pos 20) none ≡ folds fs)
    × All (IsFold (pos 100) (pos 60) (pos 20)) fs
    × Follow (pos 100) (pos 60 +ℤ pos 20) (pos 20) 0 (pos 0) fs
build_folds-ends_example =
    build_folds-ends (pos 100) (pos 60) (pos 20) none (omega arith) (omega arith) (omega arith)

build_folds-never_ends_example :
    build_folds 1000 (pos 100) (pos 60) (pos 20) (some (negsuc 4)) ≡ out_of_fuel
unfolding ◌+ℤ◌
build_folds-never_ends_example =
    build_folds-never_ends 1000 (pos 100) (pos 60) (pos 20) (negsuc 4) (omega arith) (omega arith)
      (omega arith) (omega arith)

-- 09:02:10 on the second day, with a tick each five minutes.
abbrev morning : ℕ
morning = 86400000000 + 32530000000

-- From 09:00 to 12:30, with a grace of five minutes.
abbrev window : RecordingWindow
window = record { start = 32400000000; end = 45000000000; closing_grace_seconds = pos 300 }

decide_iff_example :
    let d = decide morning window true in
    let time = morning - midnight morning in
    ((d.should_record ≡ true)
      ↔ (true ≡ true) × (32400000000 ≤ time) × (time ≤ 45000000000 + span (pos 300)))
    × ((d.reason ≡ session_open) ↔ (true ≡ true) × (32400000000 ≤ time) × (time ≤ 45000000000))
    × ((d.reason ≡ closing_grace)
        ↔ (true ≡ true) × (45000000000 < time) × (time ≤ 45000000000 + span (pos 300)))
unfolding window_valid
decide_iff_example = decide_iff window morning true refl

-- Only the space is blank.
abbrev blank : ℕ → Bool
blank c = c == 32

abbrev signal : List ℕ
signal = 97 ∷ 58 ∷ 49 ∷ []

parse_callback-callback_data_example :
    parse_callback blank (callback_data taken signal) ≡ some (taken, signal)
unfolding strip
parse_callback-callback_data_example =
    parse_callback-callback_data blank taken signal (λ e. cc) refl

parse_callback-exact_example :
    (raw : List ℕ) × (callback_data taken signal ≡ callback_data taken raw)
    × (strip blank raw ≡ signal)
    × (signal ≢ [])
unfolding parse_callback callback_data strip
parse_callback-exact_example =
    parse_callback-exact blank (callback_data taken signal) taken signal refl
