-- ===== src/Tests/Books.antt =====
-- The theorems on the order book, the rates and the transactions at concrete inputs.
use mathlib.Core.List.{Perm}
use kh_optionbaz.Prelude.{
  ◌⊎◌, Option, ◌≡◌, ◌↔◌, refl, arith, none, some, List, [], ◌∷◌, ℤ, pos, ◌+ℤ◌, ◌-ℤ◌, ◌*ℤ◌, ◌≤ℤ◌,
  ◌<ℤ◌, min_ℤ, max_ℤ, keep, map, floor_div,
}
use kh_optionbaz.OrderBook.{
  OrderBook, DepthLevel, buy, is_real, bid_level, ask_level, from_depth, fill_price, real_depth,
  fill_loop, fill_step,
}
use kh_optionbaz.OrderBook.Fill.{fill_price_filled}
use kh_optionbaz.OrderBook.Best.{fill_loop-least, IsChoice, choice_sum, choice_cost}
use kh_optionbaz.OrderBook.Sorted.{from_depth-IsValid, IsValid}
use kh_optionbaz.OrderBook.Client.{put_book, get_order_book, get_order_book_fresh}
use kh_optionbaz.OrderBook.Client.Calls.{Ask, WasFetched, answer-WasFetched}
use kh_optionbaz.Tests.{quotient, book}

fill_price_filled_example :
    (pos 12 ≡ max_ℤ (pos 0) (min_ℤ (pos 12) (pos 15)))
    × ((some (pos 101) ≡ none) ↔ (pos 12 ≡ pos 0))
unfolding fill_price real_depth is_real floor_div fill_loop fill_step min_ℤ ◌+ℤ◌ ◌-ℤ◌ ◌*ℤ◌
fill_price_filled_example =
    fill_price_filled quotient book buy (pos 12) (pos 15) (some (pos 101)) (pos 12) refl refl

abbrev choice : List ℤ
choice = pos 4 ∷ pos 5 ∷ []

fill_loop-least_example :
    let paid = (fill_loop book.asks (choice_sum choice, pos 0)).1 in
    ((best : List ℤ) × IsChoice book.asks best
      × (choice_sum best ≡ choice_sum choice)
      × (choice_cost book.asks best ≡ paid))
    × (paid ≤ℤ choice_cost book.asks choice)
unfolding is_real
fill_loop-least_example =
    fill_loop-least book.asks choice (refl, (refl, tt)) ((refl, tt), (tt, tt))
      (omega arith, omega arith, (omega arith, omega arith, tt))

-- Rows whose second bid is dearer than the first, and whose second ask is nothing.
abbrev rows : List DepthLevel
rows =
    record {
      bid_price = some (pos 90);
      bid_quantity = some (pos 5);
      bid_orders = some (pos 1);
      ask_price = some (pos 100);
      ask_quantity = some (pos 4);
      ask_orders = some (pos 2);
    }
    ∷ record {
      bid_price = some (pos 95);
      bid_quantity = some (pos 3);
      bid_orders = some (pos 1);
      ask_price = none;
      ask_quantity = some (pos 4);
      ask_orders = none;
    }
    ∷ []

from_depth-IsValid_example :
    IsValid (from_depth 7 rows)
    × Perm (from_depth 7 rows).bids (keep is_real (map bid_level rows))
    × Perm (from_depth 7 rows).asks (keep is_real (map ask_level rows))
from_depth-IsValid_example = from_depth-IsValid 7 rows

-- A book that lives for 10 is asked for again after 9.
get_order_book_fresh_example :
    let (first, after) = get_order_book (pos 10) 3 (pos 0) (pos 1) (some book) (λ code. none) in
    let (answer, kept) = get_order_book (pos 10) 3 (pos 10) (pos 11) none after in
    ((first ≡ some book) × (after ≡ put_book 3 (pos 1) book (λ code. none)))
    × (pos 10 -ℤ pos 1 <ℤ pos 10 → (answer ≡ some book) × (kept ≡ after))
    × (pos 10 ≤ℤ pos 10 -ℤ pos 1 → (answer ≡ none) × (kept ≡ after))
get_order_book_fresh_example =
    get_order_book_fresh (pos 10) 3 (pos 0) (pos 1) (pos 10) (pos 11) book none (λ code. none) refl

-- The book is fetched by the time 1; at 10 the fetch would fail.
abbrev ask_at : ℤ → ℤ → Option OrderBook → Ask
ask_at now done fetched = record { ins_code = 3; now = now; done = done; fetched = fetched }

abbrev first_ask : List Ask
first_ask = ask_at (pos 0) (pos 1) (some book) ∷ []

answer-WasFetched_example :
    (none ≡ some book)
    ⊎ ((at : ℤ) × (pos 10 -ℤ at <ℤ pos 10) × WasFetched (pos 10) 3 at book first_ask)
unfolding get_order_book ◌-ℤ◌
answer-WasFetched_example =
    answer-WasFetched (pos 10) first_ask (ask_at (pos 10) (pos 11) none) book refl
