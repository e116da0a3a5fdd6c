-- ===== src/Schedule/Ticks.antt =====
-- `next_tick` and `skipped_ticks` of option_signal_bot/market/schedule.py.
use native.Mathlib.Nat.{
  lt-div-mul-add, div-mul-le_self, div-lt_iff_lt-mul, add-mul-div_right, add-mul, mul-le-mul_right,
}
use mathlib.Core.Option.{some-injective}
use kh_optionbaz.Prelude.{
  ℕ, ◌+◌, ◌-◌, ◌*◌, ◌/◌, ◌≡◌, ◌≤◌, ◌<◌, refl, sym, ap, ◌∙◌, int_laws, arith, some, ℤ, pos, ◌-ℤ◌,
  ◌<ℤ◌, max_ℤ, floor_div,
}
use kh_optionbaz.Schedule.{span, midnight, next_tick, skipped_ticks}

-- The first slot of length `s` after `e`.
slot-bounds :
    (e s : ℕ)
    → 0 < s
    → (e < (e / s + 1) * s)
      × ((e / s + 1) * s ≤ e + s)
      × ((k : ℕ) → e < k * s → (e / s + 1) * s ≤ k * s)
slot-bounds e s h =
    let over = lt-div-mul-add {a = e} {b = s} h in
    let under = div-mul-le_self e s in
    let first = λ (k : ℕ) (l : e < k * s). (div-lt_iff_lt-mul {k = s} {x = e} {y = k} h).1 l in
    (
      omega (arith, over, add-mul (e / s) 1 s),
      omega (arith, under, add-mul (e / s) 1 s),
      λ k l. mul-le-mul_right s (omega (arith, first k l)),
    )

abbrev elapsed : ℕ → ℕ
elapsed moment = moment - midnight moment

midnight-le : (moment : ℕ) → midnight moment ≤ moment
unfolding midnight
midnight-le moment = omega arith

tick_of :
    (now : ℕ) (interval : ℤ)
    → pos 0 <ℤ interval
    → next_tick now interval
      ≡ some (midnight now + (elapsed now / span interval + 1) * span interval)
unfolding next_tick
tick_of now interval h = ground arith

-- For a positive interval, a tick stands on the grid of the day, after `now`, at most one interval later, and no moment of
-- the grid lies between.
next_tick-first :
    (now : ℕ) (interval : ℤ)
    → pos 0 <ℤ interval
    → (tick : ℕ) × (slot : ℕ) × (next_tick now interval ≡ some tick)
      × (tick ≡ midnight now + slot * span interval)
      × (now < tick)
      × (tick ≤ now + span interval)
      × ((k : ℕ) → now < midnight now + k * span interval → tick ≤ midnight now + k * span interval)
next_tick-first now interval h =
    let (over, near, first) = slot-bounds (elapsed now) (span interval) (omega arith) in
    let below = midnight-le now in
    (
      midnight now + (elapsed now / span interval + 1) * span interval,
      elapsed now / span interval + 1,
      tick_of now interval h,
      refl,
      omega (arith, over, below),
      omega (arith, near, below),
      λ k l. omega (arith, first k (omega (arith, l, below)), below),
    )

gap_of : (a b : ℕ) → a ≤ b → pos b -ℤ pos a ≡ pos (b - a)
gap_of a b h = omega int_laws

skipped_of :
    (expected actual : ℕ) (interval : ℤ)
    → pos 0 <ℤ interval
    → expected ≤ actual
    → skipped_ticks expected actual interval ≡ some (pos ((actual - expected) / span interval))
unfolding skipped_ticks floor_div max_ℤ
skipped_of expected actual interval h k = rw (gap_of expected actual k) (ground arith)

-- On one day and for a positive interval, a wake-up that is late jumps over the slots that it has missed: `skipped_ticks`
-- counts them, and the next tick is the one after them.
next_tick-skipped :
    (before actual expected : ℕ) (interval : ℤ)
    → pos 0 <ℤ interval
    → midnight actual ≡ midnight before
    → next_tick before interval ≡ some expected
    → expected ≤ actual
    → (missed : ℕ) × (skipped_ticks expected actual interval ≡ some (pos missed))
      × (next_tick actual interval ≡ some (expected + (missed + 1) * span interval))
next_tick-skipped before actual expected interval h same e late =
    let s = span interval in
    let k = elapsed before / s + 1 in
    let stands : midnight before + k * s ≡ expected =
      some-injective _ _ (sym (tick_of before interval h) ∙ e) in
    let missed = (actual - expected) / s in
    let whole : elapsed actual ≡ (actual - expected) + k * s =
      omega (arith, same, stands, midnight-le actual, late) in
    let slots : elapsed actual / s ≡ missed + k =
      ap (λ (n : ℕ). n / s) whole ∙ add-mul-div_right (actual - expected) k (omega (arith, h)) in
    let tick : midnight actual + (elapsed actual / s + 1) * s ≡ expected + (missed + 1) * s =
      rw slots (
        omega (
          arith,
          same,
          stands,
          add-mul missed k s,
          add-mul (missed + k) 1 s,
          add-mul missed 1 s,
        )) in
    (missed, skipped_of expected actual interval h late, tick_of actual interval h ∙ ap some tick)
