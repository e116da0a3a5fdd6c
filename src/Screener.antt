-- ===== src/Screener.antt =====
-- option_signal_bot/market/tradability_screener.py: what is read of a contract, its book and its
-- history for the checks of market/tradability.py. What the market, the client of the books and the
-- reader of the history answer is an argument (`Sources`).
pub mod Exits
use kh_optionbaz.Prelude.{
  ℕ, Bool, true, false, Option, none, some, if◌then◌else◌, leb_ℤ, ℤ, pos, ◌-ℤ◌, max_ℤ, Ratio,
}
use kh_optionbaz.OrderBook.{
  OrderBook, SideWord, buy, sell, best_bid, best_ask, real_depth, depth_within, fill_price,
}
use kh_optionbaz.Tradability.{
  LiquidityObservation, HistoryStats, Thresholds, TradabilityReport, evaluate,
}

-- The attributes that are read of a contract; `none` where one is missing or None, and for `ins_code`
-- also where it is empty. A day is an ordinal.
pub record ListedContract : Type 0 where
  pub symbol : ℕ
  pub ins_code : Option ℕ
  pub bid : Option ℤ
  pub ask : Option ℤ
  pub bid_quantity : Option ℤ
  pub ask_quantity : Option ℤ
  pub open_interest : Option ℤ
  pub trade_count : Option ℤ
  pub trades_today : Option ℤ
  pub expiry : Option ℕ
  pub source_time : Option ℕ

-- A time and its date.
pub record Moment : Type 0 where
  pub stamp : ℕ
  pub date : ℕ

-- What is asked of the rest of the program. The outer `none` is an object that is missing (or has no
-- such method), the inner one the answer None or an exception, which is caught.
pub record Sources : Type 0 where
  pub resolve_contract : ℕ → Option ListedContract
  pub try_get_order_book : Option (ℕ → ℕ → Option OrderBook)
  pub cache_age_seconds : Option (ℕ → Option Ratio)
  pub stats_for : Option (ℕ → Option HistoryStats)

pub record BookData : Type 0 where
  pub depth : Option ℤ
  pub entry_depth : Option ℤ
  pub filled_at : Option ℤ
  pub entry_filled_at : Option ℤ
  pub depth_in_band : Option ℤ
  pub best_exit : Option ℤ
  pub bid : Option ℤ
  pub ask : Option ℤ
  pub age : Option Ratio

abbrev pub exit_word : Bool → SideWord
exit_word position_buy = if position_buy then sell else buy

abbrev pub entry_word : Bool → SideWord
entry_word position_buy = if position_buy then buy else sell

abbrev pub answer {ℓ κ} : {A : Type ℓ} {B : Type κ} → Option (A → Option B) → Option A → Option B
answer none key = none
answer (some ask) none = none
answer (some ask) (some key) = ask key

-- `_book_age`
unfoldable pub book_age : Sources → Option ℕ → Option Ratio
book_age s ins_code = answer s.cache_age_seconds ins_code

-- The book of a contract, where there is a client and an `ins_code`.
unfoldable pub book_of : Sources → ListedContract → Option OrderBook
book_of s c = elim s.try_get_order_book [
  | none ↦ none
  | some ask ↦ answer (some (λ ins_code. ask ins_code c.symbol)) c.ins_code
]

-- The price of an order only where all of it is filled.
abbrev pub if_filled : ℤ → Option ℤ × ℤ → Option ℤ
if_filled needed (price, filled) = if leb_ℤ needed filled then price else none

abbrev pub needed_of : ℤ → ℤ
needed_of quantity = max_ℤ quantity (pos 1)

-- What the book says, put together; `none` is the ValueError of an unknown side.
abbrev pub book_data :
    ℤ
    → Option (Option ℤ × ℤ)
    → Option (Option ℤ × ℤ)
    → Option ℤ
    → Option ℤ
    → Option (Option ℤ)
    → OrderBook
    → Bool
    → Option Ratio
    → Option BookData
book_data needed (some exit) (some entry) (some depth) (some entry_depth) (some band) book buys
      age =
    some (record {
      depth = some depth;
      entry_depth = some entry_depth;
      filled_at = if_filled needed exit;
      entry_filled_at = if_filled needed entry;
      depth_in_band = band;
      best_exit = if buys then best_bid book else best_ask book;
      bid = best_bid book;
      ask = best_ask book;
      age = age;
    })
book_data needed _ _ _ _ _ book buys age = none

abbrev pub fits : Option ℤ → ℤ → Bool
fits none needed = false
fits (some level) needed = leb_ℤ needed level

-- Without a book: the first level of the chain.
unfoldable pub level_one : ListedContract → Bool → ℤ → BookData
level_one c buys quantity =
    let exit_level = if buys then c.bid_quantity else c.ask_quantity in
    let entry_level = if buys then c.ask_quantity else c.bid_quantity in
    let best_exit = if buys then c.bid else c.ask in
    let best_entry = if buys then c.ask else c.bid in
    record {
      depth = exit_level;
      entry_depth = entry_level;
      filled_at = if fits exit_level (needed_of quantity) then best_exit else none;
      entry_filled_at = if fits entry_level (needed_of quantity) then best_entry else none;
      depth_in_band = exit_level;
      best_exit = best_exit;
      bid = c.bid;
      ask = c.ask;
      age = none;
    }

abbrev pub or_else {ℓ} : {A : Type ℓ} → Option A → Option A → Option A
or_else none other = other
or_else (some a) other = some a

-- `_trades_today`
unfoldable pub trades_seen : ListedContract → Option ℤ
trades_seen c = or_else c.trade_count c.trades_today

-- `_days_to_expiry`
unfoldable pub days_left : ListedContract → Moment → Option ℤ
days_left c now = elim c.expiry [ none ↦ none | some day ↦ some (pos day -ℤ pos now.date) ]

abbrev pub unknown_history : HistoryStats
unknown_history = record {
  sessions = pos 0;
  sessions_with_trades = pos 0;
  sessions_with_both_quotes = pos 0;
  first_session = none;
  last_session = none;
  known = false;
  sessions_verified = false;
  skipped_non_trading_days = pos 0;
}

abbrev pub code_of : Option ListedContract → Option ℕ
code_of none = none
code_of (some c) = c.ins_code

-- `_history_for`
unfoldable pub history_for : Sources → Option ListedContract → HistoryStats
history_for s contract = elim (answer s.stats_for (code_of contract)) [
  | none ↦ unknown_history
  | some stats ↦ stats
]

-- The observation of a contract that is not found.
abbrev pub nothing_seen : ℕ → Bool → ℤ → Moment → LiquidityObservation
nothing_seen symbol position_buy quantity now = record {
  symbol = symbol;
  position_buy = position_buy;
  quantity = quantity;
  observed_at = now.stamp;
  bid = none;
  ask = none;
  exit_depth_contracts = none;
  exit_fill_price = none;
  best_exit_price = none;
  entry_fill_price = none;
  entry_depth_contracts = none;
  exit_depth_within_band_contracts = none;
  open_interest = none;
  trades_today = none;
  days_to_expiry = none;
  quote_age_seconds = none;
  source_time = none;
}

-- The observation of a contract, from what its book or its first level says.
abbrev pub seen_with :
    ListedContract → ℕ → Bool → ℤ → Moment → Option BookData → Option LiquidityObservation
seen_with c symbol position_buy quantity now none = none
seen_with c symbol position_buy quantity now (some b) = some (record {
  symbol = symbol;
  position_buy = position_buy;
  quantity = quantity;
  observed_at = now.stamp;
  bid = or_else b.bid c.bid;
  ask = or_else b.ask c.ask;
  exit_depth_contracts = b.depth;
  exit_fill_price = b.filled_at;
  best_exit_price = b.best_exit;
  entry_fill_price = b.entry_filled_at;
  entry_depth_contracts = b.entry_depth;
  exit_depth_within_band_contracts = b.depth_in_band;
  open_interest = c.open_interest;
  trades_today = trades_seen c;
  days_to_expiry = days_left c now;
  quote_age_seconds = b.age;
  source_time = c.source_time;
})

abbrev pub judged :
    HistoryStats → Thresholds → Option LiquidityObservation → Option TradabilityReport
judged h t none = none
judged h t (some o) = some (evaluate o h t)

abbrev pub suggested_or_one : Option ℤ → ℤ
suggested_or_one none = pos 1
suggested_or_one (some quantity) = max_ℤ quantity (pos 1)

module _ (divide : ℤ → ℤ → ℤ) (s : Sources) (t : Thresholds) where
  -- What a book says of both sides, for an order of this size.
  unfoldable pub data_of_book : OrderBook → Option ℕ → Bool → ℤ → Option BookData
  unfolding fill_price real_depth depth_within best_bid best_ask book_age
  data_of_book book ins_code position_buy quantity =
      let needed = needed_of quantity in
      let exit = exit_word position_buy in
      let entry = entry_word position_buy in
      book_data needed (fill_price divide book exit needed) (fill_price divide book entry needed)
        (real_depth book exit) (real_depth book entry)
        (depth_within book exit t.max_exit_slippage_pct) book position_buy (book_age s ins_code)

  unfoldable pub book_or_level : ListedContract → Bool → ℤ → Option OrderBook → Option BookData
  unfolding data_of_book level_one
  book_or_level c position_buy quantity none = some (level_one c position_buy quantity)
  book_or_level c position_buy quantity (some book) =
      data_of_book book c.ins_code position_buy quantity

  -- `_exit_book`
  unfoldable pub exit_book : ListedContract → Bool → ℤ → Option BookData
  unfolding book_or_level book_of
  exit_book c position_buy quantity = book_or_level c position_buy quantity (book_of s c)

  -- `_observe`
  unfoldable pub observe :
      ℕ → Bool → ℤ → Option ListedContract → Moment → Option LiquidityObservation
  unfolding exit_book
  observe symbol position_buy quantity none now =
      some (nothing_seen symbol position_buy quantity now)
  observe symbol position_buy quantity (some c) now =
      seen_with c symbol position_buy quantity now (exit_book c position_buy quantity)

  unfoldable pub evaluate_symbol : ℕ → Bool → ℤ → Moment → Option TradabilityReport
  unfolding observe history_for
  evaluate_symbol symbol position_buy quantity now =
      let contract = s.resolve_contract symbol in
      judged (history_for s contract) t (observe symbol position_buy quantity contract now)

  -- `max(int(signal.suggested_qty or 0), 1)`
  unfoldable pub evaluate_signal : ℕ → Bool → Option ℤ → Moment → Option TradabilityReport
  unfolding evaluate_symbol
  evaluate_signal symbol position_buy suggested created_at =
      evaluate_symbol symbol position_buy (suggested_or_one suggested) created_at
