-- ===== src/OrderBook/Best.antt =====
-- The cost that the loop of `fill_price` (option_signal_bot/data/order_book.py) computes is the
-- least for which the book sells that many contracts.
use kh_optionbaz.Prelude.{
  ◌≡◌, refl, ap, ◌∙◌, parts_eq, *ℤ_mono_right, true, false, List, [], ◌∷◌, inl, inr, arith, ℤ, pos,
  ◌+ℤ◌, ◌-ℤ◌, ◌*ℤ◌, ◌≤ℤ◌, ◌<ℤ◌, min_ℤ, int_laws, min_ℤ_bounds, All, IsSorted, sum_of, -ℤ-*ℤ,
  zero-*ℤ,
}
use kh_optionbaz.OrderBook.{BookLevel, is_real, real_sum, fill_loop, cheaper}
use kh_optionbaz.OrderBook.Fill.{
  fill_loop_done, fill_loop_real, real_sum_real, real_sum_nonneg, real_quantity_pos, sign_cases,
}

abbrev pub IsReal : BookLevel → Type 0
IsReal l = is_real l ≡ true

-- What the first `r` contracts of real levels cost.
pub spent : List BookLevel → ℤ → ℤ
spent ls r = (fill_loop ls (r, pos 0)).1

fill_loop_cost :
    (ls : List BookLevel) (r c : ℤ)
    → All IsReal ls
    → (fill_loop ls (r, c)).1 ≡ c +ℤ (fill_loop ls (r, pos 0)).1
fill_loop_cost [] r c h = unfold fill_loop in omega int_laws
fill_loop_cost (l ∷ ls) r c h = elim (sign_cases r) [
  | inl d ↦ rw (fill_loop_done (l ∷ ls) r c d, fill_loop_done (l ∷ ls) r (pos 0) d) (omega int_laws)
  | inr d ↦
      let m = min_ℤ r l.quantity in
      rw
        (
          fill_loop_real l ls r c h.0 d,
          fill_loop_real l ls r (pos 0) h.0 d,
          fill_loop_cost ls (r -ℤ m) (c +ℤ m *ℤ l.price) h.1,
          fill_loop_cost ls (r -ℤ m) (pos 0 +ℤ m *ℤ l.price) h.1,
        )
        (omega int_laws)
]

spent_zero : (ls : List BookLevel) (r : ℤ) → r ≤ℤ pos 0 → spent ls r ≡ pos 0
unfolding spent
spent_zero ls r h = ap (λ (p : ℤ × ℤ). p.1) (fill_loop_done ls r (pos 0) h)

spent_taken :
    (l : BookLevel) (ls : List BookLevel) (r : ℤ)
    → IsReal l
    → All IsReal ls
    → pos 0 <ℤ r
    → spent (l ∷ ls) r ≡ min_ℤ r l.quantity *ℤ l.price +ℤ spent ls (r -ℤ min_ℤ r l.quantity)
unfolding spent
spent_taken l ls r e h d =
    let m = min_ℤ r l.quantity in
    ap (λ (a : ℤ × ℤ). a.1) (fill_loop_real l ls r (pos 0) e d)
    ∙ fill_loop_cost ls (r -ℤ m) (pos 0 +ℤ m *ℤ l.price) h
    ∙ omega int_laws

spent_real :
    (l : BookLevel) (ls : List BookLevel) (r : ℤ)
    → IsReal l
    → All IsReal ls
    → pos 0 ≤ℤ r
    → spent (l ∷ ls) r ≡ min_ℤ r l.quantity *ℤ l.price +ℤ spent ls (r -ℤ min_ℤ r l.quantity)
spent_real l ls r e h n = elim (sign_cases r) [
  | inl d ↦
      let none_taken : min_ℤ r l.quantity ≡ pos 0 =
        omega (int_laws, min_ℤ_bounds r l.quantity, real_quantity_pos l e) in
      rw
        (
          none_taken,
          spent_zero (l ∷ ls) r d,
          spent_zero ls (r -ℤ pos 0) (omega int_laws),
          zero-*ℤ l.price,
        )
        (omega int_laws)
  | inr d ↦ spent_taken l ls r e h d
]

-- Where every level costs at least `p`, `d` more contracts cost at least `d * p` more.
spent_slope :
    (ls : List BookLevel) (p r d : ℤ)
    → All IsReal ls
    → All (λ l. p ≤ℤ l.price) ls
    → pos 0 ≤ℤ r
    → pos 0 ≤ℤ d
    → r +ℤ d ≤ℤ real_sum ls
    → spent ls r +ℤ d *ℤ p ≤ℤ spent ls (r +ℤ d)
spent_slope [] p r d real above hr hd fits =
    let none_more : d ≡ pos 0 = omega int_laws in
    let no_order : r ≡ pos 0 = omega int_laws in
    rw
      (
        no_order,
        none_more,
        zero-*ℤ p,
        spent_zero [] (pos 0) (omega arith),
        spent_zero [] (pos 0 +ℤ pos 0) (omega int_laws),
      )
      (omega int_laws)
spent_slope (l ∷ ls) p r d real above hr hd fits =
    let m = min_ℤ r l.quantity in
    let n = min_ℤ (r +ℤ d) l.quantity in
    let fits' : r +ℤ d ≤ℤ l.quantity +ℤ real_sum ls = rw (← real_sum_real l ls real.0) fits in
    let step_r = min_ℤ_bounds r l.quantity in
    let step_rd = min_ℤ_bounds (r +ℤ d) l.quantity in
    let full = real_quantity_pos l real.0 in
    let more : pos 0 ≤ℤ n -ℤ m = omega int_laws in
    let rest : pos 0 ≤ℤ d -ℤ (n -ℤ m) = omega int_laws in
    let later =
      spent_slope ls p (r -ℤ m) (d -ℤ (n -ℤ m)) real.1 above.1 (omega int_laws) rest
        (omega (int_laws, real_sum_nonneg ls)) in
    let same : r -ℤ m +ℤ (d -ℤ (n -ℤ m)) ≡ r +ℤ d -ℤ n = omega int_laws in
    rw (spent_real l ls r real.0 real.1 hr, spent_real l ls (r +ℤ d) real.0 real.1 (omega int_laws))
      (omega (
        int_laws,
        rw same at later,
        parts_eq (-ℤ-*ℤ d (n -ℤ m) p),
        parts_eq (-ℤ-*ℤ n m l.price),
        *ℤ_mono_right p l.price (n -ℤ m) above.0 more,
      ))

-- A choice of how many contracts to buy from each level.
abbrev pub IsChoice : List BookLevel → List ℤ → Type 0
IsChoice [] [] = Unit
IsChoice (l ∷ ls) (t ∷ ts) = (pos 0 ≤ℤ t) × (t ≤ℤ l.quantity) × IsChoice ls ts
IsChoice _ _ = ⊥

abbrev pub choice_cost : List BookLevel → List ℤ → ℤ
choice_cost (l ∷ ls) (t ∷ ts) = t *ℤ l.price +ℤ choice_cost ls ts
choice_cost _ _ = pos 0

abbrev pub choice_sum : List ℤ → ℤ
choice_sum = sum_of (λ t. t)

choice_fits :
    (ls : List BookLevel) (ts : List ℤ)
    → All IsReal ls
    → IsChoice ls ts
    → (pos 0 ≤ℤ choice_sum ts) × (choice_sum ts ≤ℤ real_sum ls)
choice_fits [] [] real c = omega arith
choice_fits [] (t ∷ ts) real c = absurd c
choice_fits (l ∷ ls) [] real c = absurd c
choice_fits (l ∷ ls) (t ∷ ts) real c =
    rw (real_sum_real l ls real.0) (omega (int_laws, choice_fits ls ts real.1 c.2))

sorted_above :
    (l : BookLevel) (ls : List BookLevel)
    → All (λ x. cheaper x l ≡ false) ls
    → All (λ x. l.price ≤ℤ x.price) ls
sorted_above l [] h = tt
sorted_above l (x ∷ xs) h = (ground (arith, h.0), sorted_above l xs h.1)

spent_le_choice :
    (ls : List BookLevel) (ts : List ℤ)
    → All IsReal ls
    → IsSorted cheaper ls
    → IsChoice ls ts
    → spent ls (choice_sum ts) ≤ℤ choice_cost ls ts
spent_le_choice [] [] real sorted c = rw (spent_zero [] (pos 0) (omega arith)) (omega arith)
spent_le_choice [] (t ∷ ts) real sorted c = absurd c
spent_le_choice (l ∷ ls) [] real sorted c = absurd c
spent_le_choice (l ∷ ls) (t ∷ ts) real sorted c =
    let total = t +ℤ choice_sum ts in
    let m = min_ℤ total l.quantity in
    let step = min_ℤ_bounds total l.quantity in
    let fits = choice_fits ls ts real.1 c.2 in
    let slope =
      spent_slope ls l.price (total -ℤ m) (m -ℤ t) real.1 (sorted_above l ls sorted.0)
        (omega int_laws) (omega int_laws) (omega int_laws) in
    let same : total -ℤ m +ℤ (m -ℤ t) ≡ choice_sum ts = omega int_laws in
    rw (spent_real l ls total real.0 real.1 (omega int_laws)) (
      omega (
        int_laws,
        rw same at slope,
        parts_eq (-ℤ-*ℤ m t l.price),
        spent_le_choice ls ts real.1 sorted.1 c.2,
      ))

-- What the loop takes from each level.
abbrev pub taken : List BookLevel → ℤ → List ℤ
taken [] r = []
taken (l ∷ ls) r = min_ℤ r l.quantity ∷ taken ls (r -ℤ min_ℤ r l.quantity)

taken-IsChoice :
    (ls : List BookLevel) (r : ℤ)
    → All IsReal ls
    → pos 0 ≤ℤ r
    → r ≤ℤ real_sum ls
    → IsChoice ls (taken ls r)
      × (choice_sum (taken ls r) ≡ r)
      × (choice_cost ls (taken ls r) ≡ spent ls r)
taken-IsChoice [] r real h k =
    let no_order : r ≡ pos 0 = omega int_laws in
    (
      tt,
      omega int_laws,
      rw no_order (omega (int_laws, parts_eq (spent_zero [] (pos 0) (omega arith)))),
    )
taken-IsChoice (l ∷ ls) r real h k =
    let m = min_ℤ r l.quantity in
    let step = min_ℤ_bounds r l.quantity in
    let full = real_quantity_pos l real.0 in
    let fits : r ≤ℤ l.quantity +ℤ real_sum ls = rw (← real_sum_real l ls real.0) k in
    let (c, total, cost) =
      taken-IsChoice ls (r -ℤ m) real.1 (omega int_laws) (omega (int_laws, real_sum_nonneg ls)) in
    (
      (omega int_laws, omega int_laws, c),
      omega (int_laws, parts_eq total),
      rw (spent_real l ls r real.0 real.1 h, cost) refl,
    )

-- On a side whose levels are real and stand in ascending order of price, what `fill_price` pays is
-- the least for which that many contracts can be bought: it is the cost of a choice of as many
-- contracts from the levels, and no choice of as many costs less.
pub fill_loop-least :
    (ls : List BookLevel) (ts : List ℤ)
    → All IsReal ls
    → IsSorted cheaper ls
    → IsChoice ls ts
    → let paid = (fill_loop ls (choice_sum ts, pos 0)).1 in
      ((best : List ℤ) × IsChoice ls best
        × (choice_sum best ≡ choice_sum ts)
        × (choice_cost ls best ≡ paid))
      × (paid ≤ℤ choice_cost ls ts)
unfolding spent
fill_loop-least ls ts real sorted c =
    let fits = choice_fits ls ts real c in
    let (c', total, cost) = taken-IsChoice ls (choice_sum ts) real fits.0 fits.1 in
    ((taken ls (choice_sum ts), c', total, cost), spent_le_choice ls ts real sorted c)
