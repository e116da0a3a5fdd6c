-- ===== src/Tests.antt =====
-- Concrete accounts, books and rates, on which the theorems are run.
pub mod Account
pub mod Books
pub mod Broker
pub mod Others
pub mod Trading
pub mod Rankings
pub mod Signals
pub mod Analysis
pub mod Calendars
use kh_optionbaz.Prelude.{
  ℕ, Bool, true, false, Option, none, some, List, [], ◌∷◌, if◌then◌else◌, ◌==◌, ℤ, pos, pos_part,
  floor_div,
}
use kh_optionbaz.OrderBook.{OrderBook, BookLevel}
use kh_optionbaz.Fees.{FeeSchedule}
use kh_optionbaz.PaperStore.{Store, init_account}
use kh_optionbaz.PaperBroker.Ledger.Runs.{empty_store}
use kh_optionbaz.PaperBroker.{Market, Contract, Call}

-- A division that rounds down.
abbrev pub quotient : ℤ → ℤ → ℤ
quotient x y = floor_div x (pos_part y)

-- A rate of 0.1 % each way, and 5 for each order.
abbrev pub rates : FeeSchedule
rates = record {
  buy_rate = pos 1000;
  sell_rate = pos 1000;
  sell_tax_rate = pos 0;
  per_order = pos 5;
  declared = true;
}

abbrev pub level : ℤ → ℤ → BookLevel
level price quantity = record { price = price; quantity = quantity; orders = pos 1 }

-- Bids of 10 at 95 and 5 at 90, asks of 10 at 100 and 5 at 110.
abbrev pub book : OrderBook
book = record {
  symbol = 7;
  bids = level (pos 95) (pos 10) ∷ level (pos 90) (pos 5) ∷ [];
  asks = level (pos 100) (pos 10) ∷ level (pos 110) (pos 5) ∷ [];
}

abbrev pub contract : Contract
contract = record { contract_size = pos 100; expiry = 20; ins_code = some 3 }

-- Only symbol 7 is listed.
abbrev pub market : Market
market = record {
  resolve_contract = λ symbol. if symbol == 7 then some contract else none;
  try_get_order_book = λ ins_code symbol. some book;
}

-- A call on a day, with fresh identifiers.
abbrev pub call : ℕ → ℕ → Call
call id today = record {
  order_id = id;
  trade_id = id;
  now = id;
  stamp = id;
  today = today;
  signal_id = none;
}

-- A new account with a million.
abbrev pub fresh : Store
fresh = (init_account (pos 1000000) 1 empty_store).1
