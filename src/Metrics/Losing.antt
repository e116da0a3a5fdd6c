-- ===== src/Metrics/Losing.antt =====
-- The longest losing streak of option_signal_bot/backtest/metrics.py.
use kh_optionbaz.Prelude.{
  ◌≡◌, refl, ap, ◌∙◌, arith, ◌⊎◌, inl, inr, ℕ, suc, ◌+◌, ◌≤◌, true, false, Bool-cases, List, [],
  ◌∷◌, ◌++◌, All, keep, length, ℤ,
}
use kh_optionbaz.Metrics.{
  Streak, is_win, is_loss, streak_step, streak_loop, longest_losing_streak, larger,
}

-- The number of losing trades.
abbrev pub losses_of : List ℤ → ℕ
losses_of values = length (keep is_loss values)

abbrev pub IsWinless : List ℤ → Type 0
IsWinless values = All (λ v. is_win v ≡ false) values

-- Every run of trades without a win has at most `n` losses.
abbrev pub RunsWithin : ℕ → List ℤ → Type 0
RunsWithin n values =
    (before run after : List ℤ)
    → values ≡ before ++ (run ++ after)
    → IsWinless run
    → losses_of run ≤ n

-- The least such number.
pub record IsLongest (values : List ℤ) (n : ℕ) : Type 0 where
  pub within : RunsWithin n values
  pub least_such : (m : ℕ) → RunsWithin m values → n ≤ m

streak_loop-append :
    (xs ys : List ℤ) (s : Streak) → streak_loop (xs ++ ys) s ≡ streak_loop ys (streak_loop xs s)
streak_loop-append [] ys s = refl
streak_loop-append (x ∷ xs) ys s = streak_loop-append xs ys (streak_step x s)

-- Three kinds of trades.
outcome :
    (v : ℤ)
    → (is_win v ≡ true)
      ⊎ ((is_win v ≡ false) × (is_loss v ≡ true))
      ⊎ ((is_win v ≡ false) × (is_loss v ≡ false))
outcome v = elim (Bool-cases (is_win v)) [
  | inl a ↦ inl a
  | inr a ↦ elim (Bool-cases (is_loss v)) [ inl b ↦ inr (inl (a, b)) | inr b ↦ inr (inr (a, b)) ]
]

larger_bounds : (a b : ℕ) → (a ≤ larger a b) × (b ≤ larger a b)
larger_bounds a b = ground arith

abbrev after_win : Streak → Streak
after_win s = record { longest = s.longest; current = 0 }

abbrev after_loss : Streak → Streak
after_loss s = record { longest = larger s.longest (suc s.current); current = suc s.current }

-- What holds after each kind of trade holds after a step.
step_elim :
    (v : ℤ) (s : Streak) (P : Streak → Type 0)
    → (is_win v ≡ true → P (after_win s))
    → (is_win v ≡ false → is_loss v ≡ true → P (after_loss s))
    → (is_win v ≡ false → is_loss v ≡ false → P s)
    → P (streak_step v s)
step_elim v s P win loss nil = elim (outcome v) [
  | inl a ↦ rw a (win a)
  | inr (inl (a, b)) ↦ rw (a, b) (loss a b)
  | inr (inr (a, b)) ↦ rw (a, b) (nil a b)
]

-- The longest streak only grows, and is never below the current one.
grows :
    (values : List ℤ) (s : Streak)
    → s.current ≤ s.longest
    → (s.longest ≤ (streak_loop values s).longest)
      × ((streak_loop values s).current ≤ (streak_loop values s).longest)
grows [] s h = (omega arith, h)
grows (v ∷ values) s h =
    step_elim v s
      (λ t.
        (s.longest ≤ (streak_loop values t).longest)
        × ((streak_loop values t).current ≤ (streak_loop values t).longest))
      (λ a. grows values (after_win s) (omega arith))
      (λ a b.
        let (c, d) = larger_bounds s.longest (suc s.current) in
        let (e, f) = grows values (after_loss s) d in (omega (arith, c, e), f))
      (λ a b. grows values s h)

winless_current :
    (run : List ℤ) (s : Streak)
    → IsWinless run
    → (streak_loop run s).current ≡ s.current + losses_of run
winless_current [] s h = omega arith
winless_current (v ∷ run) s h =
    step_elim v s (λ t. (streak_loop run t).current ≡ s.current + losses_of (v ∷ run))
      (λ a. absurd (cc (h.0, a)))
      (λ a b. rw b (let rest = winless_current run (after_loss s) h.1 in omega (arith, rest)))
      (λ a b. rw b (winless_current run s h.1))

least :
    (values : List ℤ) (s : Streak) (n : ℕ)
    → s.longest ≤ n
    → ((run after : List ℤ) → values ≡ run ++ after → IsWinless run → s.current + losses_of run ≤ n)
    → RunsWithin n values
    → (streak_loop values s).longest ≤ n
least [] s n h p w = h
least (v ∷ values) s n h p w =
    let tail : RunsWithin n values =
      λ before run after e k. w (v ∷ before) run after (ap (λ t. v ∷ t) e) k in
    step_elim v s (λ t. (streak_loop values t).longest ≤ n)
      (λ a.
        least values (after_win s) n h
          (λ run after e k. omega (arith, w (v ∷ []) run after (ap (λ t. v ∷ t) e) k)) tail)
      (λ a b.
        let one = p (v ∷ []) values refl (a, tt) in
        least values (after_loss s) n (capped s n h (lossy [] b one))
          (λ run after e k. lossy run b (p (v ∷ run) after (ap (λ t. v ∷ t) e) (a, k))) tail)
      (λ a b.
        least values s n h
          (λ run after e k. level run b (p (v ∷ run) after (ap (λ t. v ∷ t) e) (a, k))) tail)
  where
    lossy :
        (run : List ℤ)
        → is_loss v ≡ true
        → s.current + losses_of (v ∷ run) ≤ n
        → suc s.current + losses_of run ≤ n
    lossy run b k = let k' = rw b at k in omega (arith, k')

    level :
        (run : List ℤ)
        → is_loss v ≡ false
        → s.current + losses_of (v ∷ run) ≤ n
        → s.current + losses_of run ≤ n
    level run b k = rw b at k

    capped :
        (s : Streak) (n : ℕ)
        → s.longest ≤ n
        → suc s.current + 0 ≤ n
        → larger s.longest (suc s.current) ≤ n
    capped s n h k = ground arith

-- The streak that is returned is the largest number of losses in a run of trades without a win: no
-- run has more, and no smaller number bounds them all. A trade that neither wins nor loses does not
-- end a run.
pub longest_losing_streak-IsLongest :
    (values : List ℤ) → IsLongest values (longest_losing_streak values)
unfolding longest_losing_streak
longest_losing_streak-IsLongest values = record {
  within = λ before run after e k.
      let start : Streak = record { longest = 0; current = 0 } in
      let at = streak_loop before start in
      let (_, ok) = grows before start (omega arith) in
      let (_, here) = grows run at ok in
      let (more, _) = grows after (streak_loop run at) here in
      let whole : streak_loop values start ≡ streak_loop after (streak_loop run at) =
        ap (λ xs. streak_loop xs start) e
        ∙ streak_loop-append before (run ++ after) start
        ∙ streak_loop-append run after at in
      rw (whole, longest_losing_streak) (omega (arith, more, here, winless_current run at k));
  least_such = λ m w.
      least values (record { longest = 0; current = 0 }) m (omega arith)
        (λ run after e k. omega (arith, w [] run after e k)) w;
}
