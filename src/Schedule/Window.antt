-- ===== src/Schedule/Window.antt =====
-- `decide` of option_signal_bot/market/schedule.py.
use kh_optionbaz.Prelude.{
  ℕ, ◌+◌, ◌-◌, ◌≡◌, ◌≤◌, ◌<◌, ◌↔◌, arith, inl, inr, Bool-cases, Bool, true, false,
}
use kh_optionbaz.Schedule.{
  midnight, span, RecordingWindow, window_valid, end_with_grace, contains, is_after_close, decide,
  closing_grace, session_open,
}

below : (moment : ℕ) → midnight moment ≤ moment
unfolding midnight
below moment = omega arith

contains_iff :
    (w : RecordingWindow) (moment : ℕ)
    → (contains w moment ≡ true)
      ↔ (w.start ≤ moment - midnight moment)
        × (moment - midnight moment ≤ w.end + span w.closing_grace_seconds)
unfolding contains end_with_grace
contains_iff w moment = ground (arith, below moment)

is_after_close_iff :
    (w : RecordingWindow) (moment : ℕ)
    → (is_after_close w moment ≡ true)
      ↔ (w.end < moment - midnight moment) × (contains w moment ≡ true)
unfolding is_after_close
is_after_close_iff w moment = ground (arith, below moment)

-- A moment is recorded exactly on a trading day from the start of the session to its end and the
-- grace after it. Where the window is valid, the reason tells the session from the grace: from the
-- start to the end of the session it is open, and after the end it is the grace.
pub decide_iff :
    (w : RecordingWindow) (moment : ℕ) (is_trading_day : Bool)
    → window_valid w ≡ true
    → let d = decide moment w is_trading_day in
      let time = moment - midnight moment in
      ((d.should_record ≡ true)
        ↔ (is_trading_day ≡ true)
          × (w.start ≤ time)
          × (time ≤ w.end + span w.closing_grace_seconds))
      × ((d.reason ≡ session_open) ↔ (is_trading_day ≡ true) × (w.start ≤ time) × (time ≤ w.end))
      × ((d.reason ≡ closing_grace)
          ↔ (is_trading_day ≡ true)
            × (w.end < time)
            × (time ≤ w.end + span w.closing_grace_seconds))
unfolding decide window_valid
decide_iff w moment false v = (ground arith, ground arith, ground arith)
decide_iff w moment true v =
    let inside = contains_iff w moment in
    let after = is_after_close_iff w moment in
    elim (Bool-cases (contains w moment)) [
      | inl b ↦ elim (Bool-cases (is_after_close w moment)) [
        | inl c ↦ rw (b, c) (ground arith, ground arith, ground arith)
        | inr c ↦ rw (b, c) (ground arith, ground arith, ground arith)
      ]
      | inr b ↦ rw b (ground arith, ground arith, ground arith)
    ]
