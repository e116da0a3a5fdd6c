-- ===== src/Metrics.antt =====
-- option_signal_bot/backtest/metrics.py: measures over the returns of trades, in the order of time. A
-- mean is a quotient, not divided out; the measures that take a square root are left out.
pub mod Losing
use kh_optionbaz.Prelude.{
  ℕ, zero, suc, ◌-◌, ◌*◌, ◌/◌, ◌%◌, ◌==◌, ◌+◌, Bool, true, false, Option, none, some, List, [], ◌∷◌,
  keep, length, sum_of, sort_by, if◌then◌else◌, ltb, ltb_ℤ, leb_ℤ, ℤ, pos, ◌+ℤ◌, ◌-ℤ◌, ◌*ℤ◌, max_ℤ,
  min_ℤ, Ratio, ratio,
}

abbrev total_of : List ℤ → ℤ
total_of values = sum_of (λ v. v) values

-- `average`
unfoldable pub average : List ℤ → Option Ratio
average [] = none
average (v ∷ values) = some (ratio (total_of (v ∷ values)) (pos (length (v ∷ values))))

abbrev pub is_win : ℤ → Bool
is_win v = ltb_ℤ (pos 0) v

abbrev pub is_loss : ℤ → Bool
is_loss v = ltb_ℤ v (pos 0)

unfoldable pub average_win : List ℤ → Option Ratio
unfolding average
average_win values = average (keep is_win values)

unfoldable pub average_loss : List ℤ → Option Ratio
unfolding average
average_loss values = average (keep is_loss values)

unfoldable pub expectancy : List ℤ → Option Ratio
unfolding average
expectancy values = average values

unfoldable pub profit_factor : List ℤ → Option Ratio
profit_factor values =
    let losses = pos 0 -ℤ total_of (keep is_loss values) in
    if leb_ℤ losses (pos 0) then none else some (ratio (total_of (keep is_win values)) losses)

abbrev item : ℕ → List ℤ → ℤ
item n [] = pos 0
item zero (v ∷ values) = v
item (suc n) (v ∷ values) = item n values

abbrev middle : List ℤ → Option Ratio
middle [] = none
middle (v ∷ values) =
    let n = length (v ∷ values) in
    let half = n / 2 in
    if n % 2 == 0
    then some (ratio (item (half - 1) (v ∷ values) +ℤ item half (v ∷ values)) (pos 2))
    else some (ratio (item half (v ∷ values)) (pos 1))

unfoldable pub median : List ℤ → Option Ratio
median values = middle (sort_by ltb_ℤ values)

-- The loop of `equity_curve`, from a total on.
unfoldable pub curve_from : ℤ → List ℤ → List ℤ
curve_from total [] = []
curve_from total (v ∷ values) = (total +ℤ v) ∷ curve_from (total +ℤ v) values

unfoldable pub equity_curve : List ℤ → List ℤ
unfolding curve_from
equity_curve values = curve_from (pos 0) values

abbrev worst_fall : List ℤ → ℤ → ℤ → ℤ
worst_fall [] peak worst = worst
worst_fall (v ∷ curve) peak worst =
    let top = max_ℤ peak v in worst_fall curve top (max_ℤ worst (top -ℤ v))

abbrev fall_of : List ℤ → Option ℤ
fall_of [] = none
fall_of (v ∷ curve) = some (worst_fall (v ∷ curve) v (pos 0))

unfoldable pub max_drawdown : List ℤ → Option ℤ
unfolding equity_curve
max_drawdown values = fall_of (equity_curve values)

-- What the loop of `longest_losing_streak` keeps.
pub record Streak : Type 0 where
  pub longest : ℕ
  pub current : ℕ

abbrev pub larger : ℕ → ℕ → ℕ
larger a b = if ltb a b then b else a

abbrev pub streak_step : ℤ → Streak → Streak
streak_step v s =
    if is_win v
    then record { longest = s.longest; current = 0 }
    else if is_loss v
    then record { longest = larger s.longest (suc s.current); current = suc s.current }
    else s

abbrev pub streak_loop : List ℤ → Streak → Streak
streak_loop [] s = s
streak_loop (v ∷ values) s = streak_loop values (streak_step v s)

unfoldable pub longest_losing_streak : List ℤ → ℕ
longest_losing_streak values = (streak_loop values (record { longest = 0; current = 0 })).longest

abbrev highest : List ℤ → Option ℤ
highest [] = none
highest (v ∷ values) = some (from v values)
  where
    from : ℤ → List ℤ → ℤ
    from best [] = best
    from best (w ∷ ws) = from (max_ℤ best w) ws

abbrev lowest : List ℤ → Option ℤ
lowest [] = none
lowest (v ∷ values) = some (from v values)
  where
    from : ℤ → List ℤ → ℤ
    from worst [] = worst
    from worst (w ∷ ws) = from (min_ℤ worst w) ws

pub record Summary : Type 0 where
  pub total : ℕ
  pub wins : ℕ
  pub losses : ℕ
  pub win_rate_pct : Option Ratio
  pub expectancy_pct : Option Ratio
  pub avg_return_pct : Option Ratio
  pub median_return_pct : Option Ratio
  pub avg_win_pct : Option Ratio
  pub avg_loss_pct : Option Ratio
  pub profit_factor_of : Option Ratio
  pub max_drawdown_pct : Option ℤ
  pub longest_streak : ℕ
  pub best_return_pct : Option ℤ
  pub worst_return_pct : Option ℤ

abbrev rate_of : ℕ → ℕ → Option Ratio
rate_of wins decided = if decided == 0 then none else some (ratio (pos (wins * 100)) (pos decided))

-- `summarize`, without the measures that take a square root.
unfoldable pub summarize : List ℤ → Summary
unfolding expectancy average median average_win average_loss profit_factor max_drawdown
    longest_losing_streak
summarize values =
    let wins = length (keep is_win values) in
    let losses = length (keep is_loss values) in
    record {
      total = length values;
      wins = wins;
      losses = losses;
      win_rate_pct = rate_of wins (wins + losses);
      expectancy_pct = expectancy values;
      avg_return_pct = average values;
      median_return_pct = median values;
      avg_win_pct = average_win values;
      avg_loss_pct = average_loss values;
      profit_factor_of = profit_factor values;
      max_drawdown_pct = max_drawdown values;
      longest_streak = longest_losing_streak values;
      best_return_pct = highest values;
      worst_return_pct = lowest values;
    }
