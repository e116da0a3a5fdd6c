-- ===== src/OrderBook/Fill.antt =====
-- How much of an order `fill_price` of option_signal_bot/data/order_book.py fills.
use kh_optionbaz.Prelude.{
  ◌≡◌, refl, ap, ◌⊎◌, true, false, Option, none, some, List, [], ◌∷◌, inl, inr, arith, Bool-cases,
  Option-cases, ℤ, pos, ◌+ℤ◌, ◌-ℤ◌, ◌*ℤ◌, ◌≤ℤ◌, ◌<ℤ◌, min_ℤ, leb_ℤ, int_laws, if◌then◌else◌, ◌↔◌,
  min_ℤ_bounds, max_ℤ, max_ℤ_bounds, leb_ℤ→≤ℤ,
}
use kh_optionbaz.OrderBook.{
  BookLevel, OrderBook, SideWord, is_real, real_sum, fill_step, fill_loop, fill_levels, fill_price,
  can_fill, levels_of, real_depth,
}

pub real_quantity_pos : (l : BookLevel) → is_real l ≡ true → pos 0 <ℤ l.quantity
unfolding is_real
real_quantity_pos l h = ground arith

pub real_price_pos : (l : BookLevel) → is_real l ≡ true → pos 0 <ℤ l.price
unfolding is_real
real_price_pos l h = ground arith

pub real_sum_nonneg : (ls : List BookLevel) → pos 0 ≤ℤ real_sum ls
real_sum_nonneg [] = omega arith
real_sum_nonneg (l ∷ ls) = elim (Bool-cases (is_real l)) [
  | inl e ↦ rw e (omega (int_laws, real_quantity_pos l e, real_sum_nonneg ls))
  | inr e ↦ rw e (real_sum_nonneg ls)
]

-- A turn of the loop takes nothing from an empty level, and nothing once the order is filled.
pub fill_step_unreal : (l : BookLevel) (r c : ℤ) → is_real l ≡ false → fill_step l (r, c) ≡ (r, c)
unfolding fill_step
fill_step_unreal l r c e = rw e

pub fill_step_done : (l : BookLevel) (r c : ℤ) → r ≤ℤ pos 0 → fill_step l (r, c) ≡ (r, c)
unfolding fill_step
fill_step_done l r c h = ground arith

pub fill_step_real :
    (l : BookLevel) (r c : ℤ)
    → is_real l ≡ true
    → pos 0 <ℤ r
    → fill_step l (r, c) ≡ (r -ℤ min_ℤ r l.quantity, c +ℤ min_ℤ r l.quantity *ℤ l.price)
unfolding fill_step
fill_step_real l r c e h = rw e (ground arith)

pub fill_loop_done : (ls : List BookLevel) (r c : ℤ) → r ≤ℤ pos 0 → fill_loop ls (r, c) ≡ (r, c)
unfolding fill_loop
fill_loop_done [] r c h = refl
fill_loop_done (l ∷ ls) r c h = rw (fill_step_done l r c h) (fill_loop_done ls r c h)

-- The loop on a book whose first level is empty, or is taken from.
pub fill_loop_unreal :
    (l : BookLevel) (ls : List BookLevel) (r c : ℤ)
    → is_real l ≡ false
    → fill_loop (l ∷ ls) (r, c) ≡ fill_loop ls (r, c)
unfolding fill_loop
fill_loop_unreal l ls r c e = ap (fill_loop ls) (fill_step_unreal l r c e)

pub fill_loop_real :
    (l : BookLevel) (ls : List BookLevel) (r c : ℤ)
    → is_real l ≡ true
    → pos 0 <ℤ r
    → fill_loop (l ∷ ls) (r, c)
      ≡ fill_loop ls (r -ℤ min_ℤ r l.quantity, c +ℤ min_ℤ r l.quantity *ℤ l.price)
unfolding fill_loop
fill_loop_real l ls r c e h = ap (fill_loop ls) (fill_step_real l r c e h)

pub real_sum_unreal :
    (l : BookLevel) (ls : List BookLevel) → is_real l ≡ false → real_sum (l ∷ ls) ≡ real_sum ls
real_sum_unreal l ls e = rw e

pub real_sum_real :
    (l : BookLevel) (ls : List BookLevel)
    → is_real l ≡ true
    → real_sum (l ∷ ls) ≡ l.quantity +ℤ real_sum ls
real_sum_real l ls e = rw e

-- An order is filled, or has contracts left.
pub sign_cases : (r : ℤ) → (r ≤ℤ pos 0) ⊎ (pos 0 <ℤ r)
sign_cases r = omega arith

-- What is left of an order of `r` contracts: what the real levels do not hold.
pub fill_loop_remaining :
    (ls : List BookLevel) (r c : ℤ)
    → pos 0 ≤ℤ r
    → (fill_loop ls (r, c)).0 ≡ r -ℤ min_ℤ r (real_sum ls)
fill_loop_remaining [] r c h = unfold fill_loop in omega (int_laws, min_ℤ_bounds r (pos 0))
fill_loop_remaining (l ∷ ls) r c h = elim (Bool-cases (is_real l)) [
  | inr e ↦ rw (fill_loop_unreal l ls r c e, real_sum_unreal l ls e) (fill_loop_remaining ls r c h)
  | inl e ↦ elim (sign_cases r) [
    | inl d ↦
        rw (fill_loop_done (l ∷ ls) r c d)
          (omega (int_laws, min_ℤ_bounds r (real_sum (l ∷ ls)), real_sum_nonneg (l ∷ ls)))
    | inr d ↦
        let taken = min_ℤ r l.quantity in
        rw
          (
            fill_loop_real l ls r c e d,
            real_sum_real l ls e,
            fill_loop_remaining ls (r -ℤ taken) (c +ℤ taken *ℤ l.price)
                (omega (int_laws, min_ℤ_bounds r l.quantity)),
          )
          (omega (
            int_laws,
            min_ℤ_bounds r l.quantity,
            min_ℤ_bounds r (l.quantity +ℤ real_sum ls),
            min_ℤ_bounds (r -ℤ taken) (real_sum ls),
            real_sum_nonneg ls,
            real_quantity_pos l e,
          ))
  ]
]

empty_order :
    (ls : List BookLevel) (quantity : ℤ)
    → quantity ≤ℤ pos 0
    → pos 0 ≡ max_ℤ (pos 0) (min_ℤ quantity (real_sum ls))
empty_order ls quantity h = omega (
  int_laws,
  min_ℤ_bounds quantity (real_sum ls),
  max_ℤ_bounds (pos 0) (min_ℤ quantity (real_sum ls)),
)

positive_order :
    (ls : List BookLevel) (quantity : ℤ)
    → pos 0 <ℤ quantity
    → min_ℤ quantity (real_sum ls) ≡ max_ℤ (pos 0) (min_ℤ quantity (real_sum ls))
positive_order ls quantity h = omega (
  int_laws,
  min_ℤ_bounds quantity (real_sum ls),
  max_ℤ_bounds (pos 0) (min_ℤ quantity (real_sum ls)),
  real_sum_nonneg ls,
)

module _ (divide : ℤ → ℤ → ℤ) where
  fill_levels_filled :
      (quantity : ℤ) (ls : List BookLevel)
      → pos 0 ≤ℤ quantity
      → (fill_levels divide quantity ls).1 ≡ min_ℤ quantity (real_sum ls)
  unfolding fill_levels
  fill_levels_filled quantity ls h = rw (fill_loop_remaining ls quantity (pos 0) h) (omega int_laws)

  fill_levels-none :
      (quantity : ℤ) (ls : List BookLevel)
      → ((fill_levels divide quantity ls).0 ≡ none) ↔ ((fill_levels divide quantity ls).1 ≡ pos 0)
  unfolding fill_levels
  fill_levels-none quantity ls = ground arith

  fill_some :
      (ls : List BookLevel) (quantity filled : ℤ) (avg : Option ℤ)
      → (if leb_ℤ quantity (pos 0) then (none, pos 0) else fill_levels divide quantity ls)
        ≡ (avg, filled)
      → (filled ≡ max_ℤ (pos 0) (min_ℤ quantity (real_sum ls))) × ((avg ≡ none) ↔ (filled ≡ pos 0))
  fill_some ls quantity filled avg e = elim (Bool-cases (leb_ℤ quantity (pos 0))) [
    | inl z ↦
        let e' : (none, pos 0) ≡ (avg, filled) = rw z at e in
        rw (← ap (λ (p : Option ℤ × ℤ). p.0) e', ← ap (λ (p : Option ℤ × ℤ). p.1) e')
          (empty_order ls quantity (leb_ℤ→≤ℤ quantity (pos 0) z), (λ _. refl, λ _. refl))
    | inr z ↦
        let e' : fill_levels divide quantity ls ≡ (avg, filled) = rw z at e in
        let positive : pos 0 <ℤ quantity = ground arith in
        rw (← ap (λ (p : Option ℤ × ℤ). p.0) e', ← ap (λ (p : Option ℤ × ℤ). p.1) e')
          (
            rw (fill_levels_filled quantity ls (omega arith)) (positive_order ls quantity positive),
            fill_levels-none quantity ls,
          )
  ]

  module _ (book : OrderBook) (side : SideWord) (quantity d : ℤ) where
    -- The quantity that `fill_price` fills is the smaller of the order and the depth of the real
    -- levels on its side (and 0 for an order of 0 or less); the price is None exactly when nothing
    -- is filled.
    pub fill_price_filled :
        (avg : Option ℤ) (filled : ℤ)
        → fill_price divide book side quantity ≡ some (avg, filled)
        → real_depth book side ≡ some d
        → (filled ≡ max_ℤ (pos 0) (min_ℤ quantity d)) × ((avg ≡ none) ↔ (filled ≡ pos 0))
    unfolding fill_price real_depth
    fill_price_filled avg filled e r = elim (Option-cases (levels_of book side)) [
      | inl n ↦ cc (rw n at r)
      | inr (ls, n) ↦ ground (arith, fill_some ls quantity filled avg)
    ]

  -- `can_fill` says true exactly when the real levels on the order's side hold the quantity that is
  -- asked for (or nothing is asked for).
  can_fill_iff :
      (book : OrderBook) (side : SideWord) (quantity d : ℤ)
      → real_depth book side ≡ some d
      → (can_fill divide book side quantity ≡ some true) ↔ ((quantity ≤ℤ d) ⊎ (quantity ≤ℤ pos 0))
  unfolding can_fill fill_price real_depth
  can_fill_iff book side quantity d r = elim (Option-cases (levels_of book side)) [
    | inl n ↦ cc (rw n at r)
    | inr (ls, n) ↦ ground (
      arith,
      fill_levels_filled quantity ls,
      min_ℤ_bounds quantity (real_sum ls),
      real_sum_nonneg ls,
    )
  ]

  -- An order is never filled beyond what it asks for.
  pub fill_price-le :
      (book : OrderBook) (side : SideWord) (quantity filled : ℤ) (avg : Option ℤ)
      → pos 0 ≤ℤ quantity
      → fill_price divide book side quantity ≡ some (avg, filled)
      → filled ≤ℤ quantity
  unfolding fill_price
  fill_price-le book side quantity filled avg h e = elim (Option-cases (levels_of book side)) [
    | inl n ↦ ground arith
    | inr (ls, n) ↦ ground (
      arith,
      fill_some ls quantity filled avg,
      min_ℤ_bounds quantity (real_sum ls),
      max_ℤ_bounds (pos 0) (min_ℤ quantity (real_sum ls)),
    )
  ]
