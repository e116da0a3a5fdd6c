-- ===== src/OrderBook.antt =====
-- option_signal_bot/data/order_book.py: the multi-level order book of one symbol (`BookLevel`,
-- `OrderBook`). The symbol is an identifier, which the code only compares. The side is the word
-- that `side.lower()` gives, which is only compared with four literals.
pub mod Fill
pub mod Best
pub mod Sorted
pub mod Client
use kh_optionbaz.Prelude.{
  ℕ, Bool, true, false, not, ◌&&◌, ◌||◌, Option, none, some, List, [], ◌∷◌, map, keep, sum_of,
  if◌then◌else◌, ltb_ℤ, leb_ℤ, ℤ, pos, ◌+ℤ◌, ◌-ℤ◌, ◌*ℤ◌, min_ℤ, abs, sort_by, Ratio, ratio,
  ratio_leb,
}

pub record BookLevel : Type 0 where
  pub price : ℤ
  pub quantity : ℤ
  pub orders : ℤ

-- `BookLevel.is_real`
unfoldable pub is_real : BookLevel → Bool
is_real l = ltb_ℤ (pos 0) l.price && ltb_ℤ (pos 0) l.quantity

pub record OrderBook : Type 0 where
  pub symbol : ℕ
  pub bids : List BookLevel
  pub asks : List BookLevel

pub data SideWord : Type 0 where
  buy sell buy_fa sell_fa other : SideWord

abbrev best_price : List BookLevel → Option ℤ
best_price [] = none
best_price (l ∷ ls) = some l.price

unfoldable pub best_bid : OrderBook → Option ℤ
best_bid book = best_price book.bids

unfoldable pub best_ask : OrderBook → Option ℤ
best_ask book = best_price book.asks

abbrev spread_of : Option ℤ → Option ℤ → Option ℤ
spread_of (some b) (some a) = some (a -ℤ b)
spread_of _ _ = none

unfoldable pub spread : OrderBook → Option ℤ
unfolding best_bid best_ask
spread book = spread_of (best_bid book) (best_ask book)

-- The spread over the middle price `(bid + ask) / 2`.
abbrev relative_spread_of : Option ℤ → Option ℤ → Option Ratio
relative_spread_of (some b) (some a) =
    if leb_ℤ (b +ℤ a) (pos 0) then none else some (ratio ((a -ℤ b) *ℤ pos 2) (b +ℤ a))
relative_spread_of _ _ = none

unfoldable pub relative_spread : OrderBook → Option Ratio
unfolding best_bid best_ask
relative_spread book = relative_spread_of (best_bid book) (best_ask book)

-- `OrderBook._levels`: our buy is filled by the asks. `none` is the ValueError.
unfoldable pub levels_of : OrderBook → SideWord → Option (List BookLevel)
levels_of book buy = some book.asks
levels_of book buy_fa = some book.asks
levels_of book sell = some book.bids
levels_of book sell_fa = some book.bids
levels_of book other = none

abbrev pub quantity_sum : List BookLevel → ℤ
quantity_sum = sum_of (λ l. l.quantity)

abbrev pub on_levels : {A : Type 0} → (List BookLevel → A) → Option (List BookLevel) → Option A
on_levels f none = none
on_levels f (some ls) = some (f ls)

unfoldable pub depth : OrderBook → SideWord → Option ℤ
unfolding levels_of
depth book side = on_levels quantity_sum (levels_of book side)

abbrev pub real_sum : List BookLevel → ℤ
real_sum ls = quantity_sum (keep is_real ls)

unfoldable pub real_depth : OrderBook → SideWord → Option ℤ
unfolding levels_of
real_depth book side = on_levels real_sum (levels_of book side)

-- The levels whose price is at most `limit` away from the best one, relative to it.
abbrev near : Ratio → ℤ → BookLevel → Bool
near limit best l = ratio_leb (ratio (abs (l.price -ℤ best)) best) limit

abbrev within : Ratio → Option ℤ → List BookLevel → Option ℤ
within limit none ls = none
within limit (some best) ls =
    if leb_ℤ best (pos 0) then none else some (quantity_sum (keep (near limit best) ls))

-- `OrderBook.depth_within`, at a slippage of `max_slippage_pct` percent. The outer `none` is the
-- ValueError, the inner one the result None.
unfoldable pub depth_within : OrderBook → SideWord → Ratio → Option (Option ℤ)
unfolding levels_of
depth_within book side pct =
    on_levels
      (λ ls.
        let real = keep is_real ls in
        within (ratio pct.num (pct.den *ℤ pos 100)) (best_price real) real)
      (levels_of book side)

-- One turn of the loop of `fill_price`, on the remaining quantity and the cost.
unfoldable pub fill_step : BookLevel → ℤ × ℤ → ℤ × ℤ
unfolding is_real
fill_step l (remaining, cost) =
    if not (is_real l) || leb_ℤ remaining (pos 0)
    then (remaining, cost)
    else let take = min_ℤ remaining l.quantity in (remaining -ℤ take, cost +ℤ take *ℤ l.price)

unfoldable pub fill_loop : List BookLevel → ℤ × ℤ → ℤ × ℤ
fill_loop [] acc = acc
fill_loop (l ∷ ls) acc = fill_loop ls (fill_step l acc)

abbrev pub is_zero : ℤ → Bool
is_zero n = leb_ℤ n (pos 0) && leb_ℤ (pos 0) n

-- What `slippage` does with the average price and the best real price.
abbrev slippage_of : Option ℤ → Option ℤ → Option Ratio
slippage_of (some avg) (some best) =
    if is_zero best then none else some (ratio (abs (avg -ℤ best)) best)
slippage_of _ _ = none

-- `divide` is the division of two floats, brought back to the unit of the amounts.
module _ (divide : ℤ → ℤ → ℤ) where
  unfoldable pub fill_levels : ℤ → List BookLevel → Option ℤ × ℤ
  fill_levels quantity ls =
      let (remaining, cost) = fill_loop ls (quantity, pos 0) in
      let filled = quantity -ℤ remaining in
      (if is_zero filled then none else some (divide cost filled), filled)

  -- The average price and the quantity that is filled. `none` is the ValueError.
  unfoldable pub fill_price : OrderBook → SideWord → ℤ → Option (Option ℤ × ℤ)
  unfolding levels_of fill_levels
  fill_price book side quantity =
      if leb_ℤ quantity (pos 0)
      then some (none, pos 0)
      else on_levels (fill_levels quantity) (levels_of book side)

  unfoldable pub slippage : OrderBook → SideWord → ℤ → Option (Option Ratio)
  unfolding fill_price levels_of is_real
  slippage book side quantity = elim (fill_price book side quantity) [
    | none ↦ none
    | some r ↦
        if ltb_ℤ r.1 quantity
        then some none
        else on_levels (λ ls. slippage_of r.0 (best_price (keep is_real ls))) (levels_of book side)
  ]

  -- `OrderBook.can_fill`
  unfoldable pub can_fill : OrderBook → SideWord → ℤ → Option Bool
  unfolding fill_price
  can_fill book side quantity = elim (fill_price book side quantity) [
    | none ↦ none
    | some r ↦ some (leb_ℤ quantity r.1)
  ]

-- A row of `bestLimits` (`DepthLevel`); `none` is what `float` does not read, which counts as 0.
pub record DepthLevel : Type 0 where
  pub bid_price : Option ℤ
  pub bid_quantity : Option ℤ
  pub bid_orders : Option ℤ
  pub ask_price : Option ℤ
  pub ask_quantity : Option ℤ
  pub ask_orders : Option ℤ

-- `_number`
unfoldable pub number : Option ℤ → ℤ
number none = pos 0
number (some n) = n

unfoldable pub bid_level : DepthLevel → BookLevel
unfolding number
bid_level d = record {
  price = number d.bid_price;
  quantity = number d.bid_quantity;
  orders = number d.bid_orders;
}

unfoldable pub ask_level : DepthLevel → BookLevel
unfolding number
ask_level d = record {
  price = number d.ask_price;
  quantity = number d.ask_quantity;
  orders = number d.ask_orders;
}

-- `list.sort` keeps the order of equal prices, also under `reverse=True`.
abbrev pub dearer : BookLevel → BookLevel → Bool
dearer x y = ltb_ℤ y.price x.price

abbrev pub cheaper : BookLevel → BookLevel → Bool
cheaper x y = ltb_ℤ x.price y.price

unfoldable pub from_depth : ℕ → List DepthLevel → OrderBook
unfolding bid_level ask_level is_real
from_depth symbol levels = record {
  symbol = symbol;
  bids = sort_by dearer (keep is_real (map bid_level levels));
  asks = sort_by cheaper (keep is_real (map ask_level levels));
}
