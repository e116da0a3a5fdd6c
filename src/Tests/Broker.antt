-- ===== src/Tests/Broker.antt =====
-- The theorems on the broker and its account at concrete inputs.
use kh_optionbaz.Prelude.{
  ℕ, ap, ◌∙◌, [], ◌∷◌, ◌≡◌, ◌⊎◌, refl, true, false, some, All, ℤ, pos, ◌+ℤ◌, ◌-ℤ◌, ◌*ℤ◌, min_ℤ,
  floor_div, abs,
}
use kh_optionbaz.OrderBook.{
  buy, sell, fill_price, fill_loop, fill_step, fill_levels, levels_of, is_real,
}
use kh_optionbaz.Fees.{FeeSchedule, rates_known, entry_cost}
use kh_optionbaz.PaperStore.{
  Reason, has_trade, get_account, get_position, save_order, update_cash, upsert_position, Store,
  Result, err, value_error, transaction, init_account,
}
use kh_optionbaz.PaperAccount.{check_affordable, AccountSnapshot, reconciliation, checked}
use kh_optionbaz.PaperBroker.{
  Market, reject, place_order, settle_position, order_side, check_held, find_contract, find_fill,
  settle_fill, get_account_balance, order_fee, execute, apply_buy,
}
use kh_optionbaz.PaperBroker.Reject.{place_order-Ends, Fill}
use kh_optionbaz.PaperBroker.Reject
use kh_optionbaz.PaperBroker.Expiry.{
  settle_position_ends, order_excludes_settlement, Settlement, settle_run,
}
use kh_optionbaz.PaperBroker.Ledger.{size_of, IsSized, size_of-IsSized}
use kh_optionbaz.PaperBroker.Ledger.Placed.{IsKept, place_order-IsKept}
use kh_optionbaz.PaperBroker.Ledger.Settled.{settle_position-IsKept}
use kh_optionbaz.PaperBroker.Ledger.Runs.{IsReached, opened, ordered, IsReached-IsKept}
use kh_optionbaz.PaperBroker.Ledger.Balanced.{IsReached-balanced}
use kh_optionbaz.PaperBroker.Valuation.{account_snapshot}
use kh_optionbaz.PaperBroker.Valuation.Priced.{IsPriced}
use kh_optionbaz.Tests.{fresh, quotient, rates, book, level, market, call}

-- The new account, in which two contracts of symbol 7 are bought.
abbrev after_buy : Store
after_buy = (place_order quotient rates market 7 buy (pos 2) (call 2 10) fresh).1

known_rates : rates_known rates ≡ true
unfolding rates_known
known_rates = refl

abbrev Reached : Store → Type 0
Reached = IsReached quotient (size_of market) (pos 1000000)

fresh-Reached : Reached fresh
fresh-Reached = opened 1

after_buy-Reached : Reached after_buy
unfolding init_account
after_buy-Reached =
    ordered fresh market rates 7 buy (pos 2) (call 2 10) fresh-Reached refl known_rates (λ f b. tt)
      refl

-- The market after the buy: bids of 5 at 120, and a fee of 9 for each order.
abbrev later_market : Market
later_market = record market {
  try_get_order_book =
      λ ins_code symbol. some (record book { bids = level (pos 120) (pos 5) ∷ [] });
}

abbrev later_rates : FeeSchedule
later_rates = record rates { per_order = pos 9 }

later_known : rates_known later_rates ≡ true
unfolding rates_known
later_known = refl

same_listing : (symbol : ℕ) → IsSized (size_of market) symbol (later_market.resolve_contract symbol)
same_listing = size_of-IsSized market

-- One of the two contracts is sold there.
abbrev after_sale : Store
after_sale = (place_order quotient later_rates later_market 7 sell (pos 1) (call 3 10) after_buy).1

after_buy-untraded : has_trade 3 after_buy.working.trades ≡ false
unfolding init_account place_order order_side check_held find_contract find_fill fill_price
    settle_fill fill_levels fill_loop fill_step is_real levels_of get_account_balance
    check_affordable order_fee entry_cost execute apply_buy transaction get_account get_position
    save_order update_cash upsert_position min_ℤ floor_div abs ◌+ℤ◌ ◌-ℤ◌ ◌*ℤ◌ rates_known
after_buy-untraded = refl

after_sale-Reached : Reached after_sale
unfolding order_side
after_sale-Reached =
    ordered after_buy later_market later_rates 7 sell (pos 1) (call 3 10) after_buy-Reached refl
      later_known (λ f b. absurd (cc (f.sided ∙ ap some b))) after_buy-untraded

IsReached-balanced_example :
    (a : AccountSnapshot) × (account_snapshot quotient later_market later_rates
        (call 4 10)
        after_sale
      ≡ (Result.ok a, after_sale))
    × (All IsPriced a.positions
        → (actual : ℤ) × (expected : ℤ) × (reconciliation a ≡ checked actual expected (pos 0) true))
IsReached-balanced_example =
    IsReached-balanced quotient later_rates later_market (size_of market) (pos 1000000) (call 4 10)
      same_listing after_sale after_sale-Reached

fresh-IsKept : IsKept (size_of market) (pos 1000000) fresh
fresh-IsKept = IsReached-IsKept quotient (size_of market) (pos 1000000) fresh fresh-Reached

after_buy-IsKept : IsKept (size_of market) (pos 1000000) after_buy
after_buy-IsKept =
    IsReached-IsKept quotient (size_of market) (pos 1000000) after_buy after_buy-Reached

place_order-IsKept_example : IsKept (size_of market) (pos 1000000) after_buy
unfolding init_account
place_order-IsKept_example =
    place_order-IsKept quotient rates market 7 buy (pos 2) (call 2 10) fresh known_rates
      (pos 1000000) fresh-IsKept (λ f b. tt) refl

-- On day 21 the contract is past its expiry.
settle_position-IsKept_example :
    IsKept
      (size_of market)
      (pos 1000000)
      (settle_position quotient rates market 7 (some (pos 130)) (call 3 21) after_buy).1
settle_position-IsKept_example =
    settle_position-IsKept quotient rates market 7 (some (pos 130)) (call 3 21) after_buy
      known_rates (pos 1000000) after_buy-IsKept after_buy-untraded

place_order-Ends_example :
    Reject.Ends quotient rates market 7 buy
      (pos 2)
      (call 2 10)
      fresh
      (place_order quotient rates market 7 buy (pos 2) (call 2 10) fresh)
place_order-Ends_example = place_order-Ends quotient rates market 7 buy (pos 2) (call 2 10) fresh

settle_position_ends_example :
    (settle_position quotient rates market 7 (some (pos 130)) (call 3 21) after_buy
      ≡ (err value_error, after_buy))
    ⊎ ((f : Settlement quotient rates market 7 (call 3 21) after_buy (some (pos 130)))
        × (settle_position quotient rates market 7 (some (pos 130)) (call 3 21) after_buy
            ≡ settle_run quotient rates market 7 (call 3 21) after_buy f))
settle_position_ends_example =
    settle_position_ends quotient rates market 7 (call 3 21) after_buy (some (pos 130))

-- After the buy of two contracts, on the same day.
order_excludes_settlement_example :
    ((why : Reason) × (place_order quotient rates market 7 buy (pos 2) (call 2 10) fresh
        ≡ reject 7 buy (pos 2) (call 2 10) why fresh))
    ⊎ (settle_position quotient later_rates later_market 7 (some (pos 130)) (call 3 10) after_buy
        ≡ (err value_error, after_buy))
order_excludes_settlement_example =
    order_excludes_settlement quotient market later_market 7 (call 2 10) (call 3 10) refl refl rates
      later_rates buy (pos 2) (some (pos 130)) fresh after_buy
