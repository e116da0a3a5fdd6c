-- ===== src/OrderBook/Sorted.antt =====
-- `OrderBook.from_depth` of option_signal_bot/data/order_book.py builds well-formed books.
use mathlib.Core.List.{Perm}
use kh_optionbaz.Prelude.{
  ℕ, ◌≡◌, true, List, [], ◌∷◌, inl, inr, arith, Bool-cases, All, keep, IsSorted, sort_by-IsSorted,
  sort_by-perm, All-sort_by, map,
}
use kh_optionbaz.OrderBook.{
  BookLevel, OrderBook, DepthLevel, is_real, bid_level, ask_level, dearer, cheaper, from_depth,
}

-- Both sides hold real levels, the bids from the dearest down and the asks from the cheapest up.
pub record IsValid (book : OrderBook) : Type 0 where
  pub bids_real : All (λ l. is_real l ≡ true) book.bids
  pub asks_real : All (λ l. is_real l ≡ true) book.asks
  pub bids_sorted : IsSorted dearer book.bids
  pub asks_sorted : IsSorted cheaper book.asks

All-keep : (ls : List BookLevel) → All (λ l. is_real l ≡ true) (keep is_real ls)
All-keep [] = tt
All-keep (l ∷ ls) = elim (Bool-cases (is_real l)) [
  | inl e ↦ rw e (e, All-keep ls)
  | inr e ↦ rw e (All-keep ls)
]

-- Whatever the order of the source's rows, `from_depth` gives a book that is valid, and whose sides
-- are the real levels of the rows, none lost and none added.
pub from_depth-IsValid :
    (symbol : ℕ) (levels : List DepthLevel)
    → let book = from_depth symbol levels in
      IsValid book
      × Perm book.bids (keep is_real (map bid_level levels))
      × Perm book.asks (keep is_real (map ask_level levels))
unfolding from_depth
from_depth-IsValid symbol levels = (
  record {
    bids_real = All-sort_by dearer _ _ (All-keep (map bid_level levels));
    asks_real = All-sort_by cheaper _ _ (All-keep (map ask_level levels));
    bids_sorted = sort_by-IsSorted dearer (λ x y h. ground arith) (λ x y z h k. ground arith) _;
    asks_sorted = sort_by-IsSorted cheaper (λ x y h. ground arith) (λ x y z h k. ground arith) _;
  },
  sort_by-perm dearer _,
  sort_by-perm cheaper _,
)
