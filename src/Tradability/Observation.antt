-- ===== src/Tradability/Observation.antt =====
-- What is known of a contract, and the measures of it: `EntryStatus`, `LiquidityObservation` and
-- `HistoryStats` of option_signal_bot/market/tradability.py.
use kh_optionbaz.Prelude.{
  ℕ, Bool, true, false, ◌&&◌, ◌||◌, not, Option, none, some, if◌then◌else◌, leb_ℤ, ℤ, pos, ◌+ℤ◌,
  ◌-ℤ◌, ◌*ℤ◌, max_ℤ, Ratio, ratio,
}

pub data EntryStatus : Type 0 where
  executable short_of_depth unknown_entry : EntryStatus

-- `position_buy` is `position_side.lower() == "buy"`.
pub record LiquidityObservation : Type 0 where
  pub symbol : ℕ
  pub position_buy : Bool
  pub quantity : ℤ
  pub observed_at : ℕ
  pub bid : Option ℤ
  pub ask : Option ℤ
  pub exit_depth_contracts : Option ℤ
  pub exit_fill_price : Option ℤ
  pub best_exit_price : Option ℤ
  pub entry_fill_price : Option ℤ
  pub entry_depth_contracts : Option ℤ
  pub exit_depth_within_band_contracts : Option ℤ
  pub open_interest : Option ℤ
  pub trades_today : Option ℤ
  pub days_to_expiry : Option ℤ
  pub quote_age_seconds : Option Ratio
  pub source_time : Option ℕ

pub data ExitSide : Type 0 where
  bid_side ask_side : ExitSide

unfoldable pub exit_side : LiquidityObservation → ExitSide
exit_side o = if o.position_buy then bid_side else ask_side

-- `not x` of a number that may be None: a zero counts as missing.
abbrev pub nonzero : Option ℤ → Option ℤ
nonzero none = none
nonzero (some n) = if leb_ℤ n (pos 0) && leb_ℤ (pos 0) n then none else some n

-- The spread over the middle price, in percent.
abbrev pub spread_pct : Option ℤ → Option ℤ → Option Ratio
spread_pct (some b) (some a) =
    if leb_ℤ (b +ℤ a) (pos 0) then none else some (ratio ((a -ℤ b) *ℤ pos 200) (b +ℤ a))
spread_pct _ _ = none

unfoldable pub relative_spread_pct : LiquidityObservation → Option Ratio
relative_spread_pct o = spread_pct (nonzero o.bid) (nonzero o.ask)

abbrev pub per_order : Option ℤ → ℤ → Option Ratio
per_order none quantity = none
per_order (some depth) quantity =
    if leb_ℤ quantity (pos 0) then none else some (ratio depth quantity)

unfoldable pub exit_depth_ratio : LiquidityObservation → Option Ratio
exit_depth_ratio o = per_order o.exit_depth_contracts o.quantity

unfoldable pub entry_depth_ratio : LiquidityObservation → Option Ratio
entry_depth_ratio o = per_order o.entry_depth_contracts o.quantity

unfoldable pub usable_exit_depth_ratio : LiquidityObservation → Option Ratio
usable_exit_depth_ratio o = per_order o.exit_depth_within_band_contracts o.quantity

-- How much worse than the best price the exit fills, in percent of it and never below 0.
abbrev pub slippage_pct : ExitSide → Option ℤ → Option ℤ → Option Ratio
slippage_pct side (some fill) (some best) =
    let drop : ℤ = elim side [ bid_side ↦ best -ℤ fill | ask_side ↦ fill -ℤ best ] in
    if leb_ℤ best (pos 0) then none else some (ratio (max_ℤ (drop *ℤ pos 100) (pos 0)) best)
slippage_pct side _ _ = none

unfoldable pub exit_slippage_pct : LiquidityObservation → Option Ratio
unfolding exit_side
exit_slippage_pct o =
    slippage_pct (exit_side o) (nonzero o.exit_fill_price) (nonzero o.best_exit_price)

abbrev pub cost_pct : Option ℤ → Option ℤ → Option Ratio
cost_pct (some entry) (some exit) =
    if leb_ℤ entry (pos 0)
    then none
    else some (ratio (max_ℤ ((entry -ℤ exit) *ℤ pos 100) (pos 0)) entry)
cost_pct _ _ = none

-- What is lost by an entry and an exit at once.
unfoldable pub round_trip_cost_pct : LiquidityObservation → Option Ratio
round_trip_cost_pct o = cost_pct (nonzero o.entry_fill_price) (nonzero o.exit_fill_price)

abbrev pub status_of : Option ℤ → Option ℤ → EntryStatus
status_of (some price) depth = executable
status_of none none = unknown_entry
status_of none (some depth) = short_of_depth

unfoldable pub entry_status : LiquidityObservation → EntryStatus
entry_status o = status_of (nonzero o.entry_fill_price) o.entry_depth_contracts

abbrev known_of : Option ℕ → Bool
known_of none = false
known_of (some t) = true

unfoldable pub source_time_known : LiquidityObservation → Bool
source_time_known o = known_of o.source_time

pub record HistoryStats : Type 0 where
  pub sessions : ℤ
  pub sessions_with_trades : ℤ
  pub sessions_with_both_quotes : ℤ
  pub first_session : Option ℕ
  pub last_session : Option ℕ
  pub known : Bool
  pub sessions_verified : Bool
  pub skipped_non_trading_days : ℤ

unfoldable pub sessions_with_trades_pct : HistoryStats → Option Ratio
sessions_with_trades_pct h =
    if not h.known || leb_ℤ h.sessions (pos 0)
    then none
    else some (ratio (h.sessions_with_trades *ℤ pos 100) h.sessions)

unfoldable pub sessions_without_trades : HistoryStats → ℤ
sessions_without_trades h = max_ℤ (h.sessions -ℤ h.sessions_with_trades) (pos 0)
