-- ===== src/Schedule.antt =====
-- option_signal_bot/market/schedule.py. A moment is a number of microseconds from a local midnight
-- on; the offset of the time zone is fixed, as it is for Tehran. `resolve_timezone` is left out.
pub mod Ticks
pub mod Window
use kh_optionbaz.Prelude.{
  ℕ, ◌+◌, ◌-◌, ◌*◌, ◌/◌, ◌%◌, Bool, true, false, not, ◌&&◌, Option, none, some, if◌then◌else◌, ltb,
  leb, leb_ℤ, ltb_ℤ, ℤ, pos, pos_part, ◌-ℤ◌, floor_div, max_ℤ,
}

-- The microseconds of a second and of a day.
abbrev pub second : ℕ
second = 1000000

abbrev pub day : ℕ
day = 86400000000

-- `datetime.combine(moment.date(), time(0, 0))`
unfoldable pub midnight : ℕ → ℕ
midnight moment = moment - moment % day

abbrev pub span : ℤ → ℕ
span interval_seconds = pos_part interval_seconds * second

-- `next_tick`; `none` is a ValueError.
unfoldable pub next_tick : ℕ → ℤ → Option ℕ
unfolding midnight
next_tick now interval_seconds =
    let s = span interval_seconds in
    if leb_ℤ interval_seconds (pos 0)
    then none
    else some (midnight now + ((now - midnight now) / s + 1) * s)

-- `skipped_ticks`
unfoldable pub skipped_ticks : ℕ → ℕ → ℤ → Option ℤ
skipped_ticks expected actual interval_seconds =
    if leb_ℤ interval_seconds (pos 0)
    then none
    else some (max_ℤ (floor_div (pos actual -ℤ pos expected) (span interval_seconds)) (pos 0))

-- The times of `start` and `end` are microseconds from midnight on.
pub record RecordingWindow : Type 0 where
  pub start : ℕ
  pub end : ℕ
  pub closing_grace_seconds : ℤ

-- `__post_init__`: whether the window is not refused.
unfoldable pub window_valid : RecordingWindow → Bool
window_valid w = if leb w.end w.start then false else leb_ℤ (pos 0) w.closing_grace_seconds

-- The end of the window on the day of the moment, with the grace.
unfoldable pub end_with_grace : RecordingWindow → ℕ → ℕ
unfolding midnight
end_with_grace w moment = midnight moment + w.end + span w.closing_grace_seconds

unfoldable pub contains : RecordingWindow → ℕ → Bool
unfolding midnight end_with_grace
contains w moment = leb (midnight moment + w.start) moment && leb moment (end_with_grace w moment)

unfoldable pub is_after_close : RecordingWindow → ℕ → Bool
is_after_close w moment = ltb (midnight moment + w.end) moment && contains w moment

-- The texts of `reason`.
pub data TickReason : Type 0 where
  no_trading_day outside_window closing_grace session_open : TickReason

pub record TickDecision : Type 0 where
  pub should_record : Bool
  pub reason : TickReason

unfoldable pub is_waiting : TickDecision → Bool
is_waiting d = not d.should_record

unfoldable pub decide : ℕ → RecordingWindow → Bool → TickDecision
decide moment w is_trading_day =
    if not is_trading_day
    then record { should_record = false; reason = no_trading_day }
    else if not (contains w moment)
    then record { should_record = false; reason = outside_window }
    else if is_after_close w moment
    then record { should_record = true; reason = closing_grace }
    else record { should_record = true; reason = session_open }
