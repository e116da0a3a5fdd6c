-- ===== src/PaperBroker/Drawdown/Largest.antt =====
-- The fall in rials that `realized_drawdown` of option_signal_bot/execution/paper_broker.py reports.
use kh_optionbaz.Prelude.{
  ℕ, ◌≡◌, refl, arith, ◌∙◌, ◌⊎◌, inl, inr, Bool-cases, Option, List, [], ◌∷◌, All, ltb_ℤ, ℤ, pos,
  ◌+ℤ◌, ◌-ℤ◌, ◌*ℤ◌, ◌≤ℤ◌, max_ℤ, max_ℤ_bounds, int_laws, ratio, ratio_ltb,
}
use kh_optionbaz.PaperStore.{TradeRow, Store, Result, trades_since}
use kh_optionbaz.PaperBroker.Drawdown.{
  Drawdown, start_at, record_currency, record_pct, add_close, add_closes, realized_drawdown,
}

-- The balance after each trade.
abbrev pub curve : ℤ → List TradeRow → List ℤ
curve balance [] = []
curve balance (t ∷ ts) = (balance +ℤ t.pnl_absolute) ∷ curve (balance +ℤ t.pnl_absolute) ts

-- No balance is more than `m` below an earlier one.
abbrev pub FallsWithin : ℤ → List ℤ → Type 0
FallsWithin m [] = Unit
FallsWithin m (x ∷ xs) = All (λ y. x -ℤ y ≤ℤ m) xs × FallsWithin m xs

All-weaken :
    (p q m : ℤ) (ys : List ℤ) → p ≤ℤ q → All (λ y. q -ℤ y ≤ℤ m) ys → All (λ y. p -ℤ y ≤ℤ m) ys
All-weaken p q m [] h k = tt
All-weaken p q m (y ∷ ys) h k = (omega (int_laws, k.0), All-weaken p q m ys h k.1)

-- The test of the percentages leaves the rest alone.
record_pct_keeps :
    (t : TradeRow) (d : Drawdown)
    → ((record_pct t d).equity ≡ d.equity)
      × ((record_pct t d).peak ≡ d.peak)
      × ((record_pct t d).worst_currency ≡ d.worst_currency)
unfolding record_pct
record_pct_keeps t d = elim (Bool-cases (ltb_ℤ (pos 0) d.peak)) [
  | inl b ↦
      elim (Bool-cases (ratio_ltb d.worst_pct (ratio ((d.peak -ℤ d.equity) *ℤ pos 100) d.peak))) [
        | inl k ↦ rw (b, k) (refl, refl, refl)
        | inr k ↦ rw (b, k) (refl, refl, refl)
      ]
  | inr b ↦ rw b (refl, refl, refl)
]

record_currency_keeps :
    (t : TradeRow) (d : Drawdown)
    → ((record_currency t d).equity ≡ d.equity)
      × ((record_currency t d).peak ≡ d.peak)
      × ((record_currency t d).worst_currency ≡ max_ℤ d.worst_currency (d.peak -ℤ d.equity))
unfolding record_currency max_ℤ
record_currency_keeps t d = elim (Bool-cases (ltb_ℤ d.worst_currency (d.peak -ℤ d.equity))) [
  | inl b ↦ rw b (refl, refl, refl)
  | inr b ↦ rw b (refl, refl, refl)
]

-- What one turn does to the three numbers.
turn :
    (t : TradeRow) (d : Drawdown)
    → let e = d.equity +ℤ t.pnl_absolute in
      let p = max_ℤ d.peak e in
      ((add_close t d).equity ≡ e)
      × ((add_close t d).peak ≡ p)
      × ((add_close t d).worst_currency ≡ max_ℤ d.worst_currency (p -ℤ e))
unfolding add_close
turn t d =
    let e = d.equity +ℤ t.pnl_absolute in
    let moved = record d { equity = e; peak = max_ℤ d.peak e } in
    let (e1, p1, w1) = record_currency_keeps t moved in
    let (e2, p2, w2) = record_pct_keeps t (record_currency t moved) in (e2 ∙ e1, p2 ∙ p1, w2 ∙ w1)

-- The loop bounds every fall that comes: from the peak so far, and within what follows.
module _ (m : ℤ) where
  abbrev Within : Drawdown → List TradeRow → Type 0
  Within d ts =
      (d.worst_currency ≤ℤ m)
      × All (λ y. d.peak -ℤ y ≤ℤ m) (curve d.equity ts)
      × FallsWithin m (curve d.equity ts)

  bounded :
      (ts : List TradeRow) (d : Drawdown) → (add_closes ts d).worst_currency ≤ℤ m → Within d ts
  unfolding add_closes
  bounded [] d h = (h, tt, tt)
  bounded (t ∷ ts) d h =
      let e = d.equity +ℤ t.pnl_absolute in
      let (e1, p1, w1) = turn t d in
      let (w, a, f) = bounded ts (add_close t d) h in
      let high = max_ℤ_bounds d.peak e in
      let worst = max_ℤ_bounds d.worst_currency (max_ℤ d.peak e -ℤ e) in
      let now = rw w1 at w in
      let later = rw (p1, e1) at a in
      (
        omega (int_laws, now, worst.0),
        (omega (int_laws, now, worst.1, high.0), All-weaken _ _ m _ high.0 later),
        (All-weaken _ _ m _ high.1 later, rw e1 at f),
      )

  falls_from :
      (p q e : ℤ) (ys : List ℤ)
      → (p ≤ℤ q) ⊎ (p ≤ℤ e)
      → All (λ y. q -ℤ y ≤ℤ m) ys
      → All (λ y. e -ℤ y ≤ℤ m) ys
      → All (λ y. p -ℤ y ≤ℤ m) ys
  falls_from p q e ys (inl h) a b = All-weaken p q m ys h a
  falls_from p q e ys (inr h) a b = All-weaken p e m ys h b

  least :
      (ts : List TradeRow) (d : Drawdown)
      → pos 0 ≤ℤ m
      → Within d ts
      → (add_closes ts d).worst_currency ≤ℤ m
  unfolding add_closes
  least [] d z h = h.0
  least (t ∷ ts) d z (w, (head, tail), (own, f)) =
      let e = d.equity +ℤ t.pnl_absolute in
      let (e1, p1, w1) = turn t d in
      let (_, _, high) = max_ℤ_bounds d.peak e in
      let (_, _, worst) = max_ℤ_bounds d.worst_currency (max_ℤ d.peak e -ℤ e) in
      least ts (add_close t d) z (
        rw w1 (omega (int_laws, worst, high, w, head, z)),
        rw (p1, e1) (falls_from (max_ℤ d.peak e) d.peak e _ high tail own),
        rw e1 f,
      )

-- The bound of a curve: it is not negative, no fall is larger, and it is the least such number.
pub record IsLargestFall (curve : List ℤ) (largest : ℤ) : Type 0 where
  pub nonneg : pos 0 ≤ℤ largest
  pub within : FallsWithin largest curve
  pub least_such : (m : ℤ) → pos 0 ≤ℤ m → FallsWithin m curve → largest ≤ℤ m

≤ℤ_refl : (a : ℤ) → a ≤ℤ a
≤ℤ_refl a = omega arith

add_closes-IsLargestFall :
    (opening : ℤ) (ts : List TradeRow)
    → IsLargestFall (opening ∷ curve opening ts) (add_closes ts (start_at opening)).worst_currency
add_closes-IsLargestFall opening ts =
    let largest = (add_closes ts (start_at opening)).worst_currency in
    let (z, a, f) = bounded largest ts (start_at opening) (≤ℤ_refl largest) in
    record {
      nonneg = z;
      within = (a, f);
      least_such = λ m n (b, g). least m ts (start_at opening) n (n, b, g);
    }

-- `realized_drawdown` returns, and it writes nothing. Its fall in rials is the largest fall of the
-- balance, from any point of the curve to a later one, or 0 where there is none: the curve starts with the opening balance and
-- goes through the trades of the window.
pub realized_drawdown-IsLargestFall :
    (since : Option ℕ) (s : Store)
    → (opening : ℤ) × (d : Drawdown) × (realized_drawdown since s ≡ (Result.ok (opening, d), s))
      × IsLargestFall
          (opening ∷ curve opening (trades_since since s.working.trades))
          d.worst_currency
unfolding realized_drawdown
realized_drawdown-IsLargestFall since s =
    (_, _, refl, add_closes-IsLargestFall _ (trades_since since s.working.trades))
