-- ===== src/Lib.antt =====
-- Kh-Optionbaz: the paper-trading core of option_signal_bot, and the modules around it that decide
-- when data is recorded and the market trades, what a contract or a structure of options is worth
-- taking, how much of it, how history is cut for validation, and what a user's answer means.
--
-- The parts and the files that model them:
--   OrderBook      option_signal_bot/data/order_book.py: BookLevel, OrderBook. `fill_price` walks the
--                  levels of one side; `fill_loop` and `fill_step` are its loop. Client is OrderBookClient
--                  and its cache, with what the network gives as an argument, Client.Calls any
--                  sequence of its calls.
--   Fees           option_signal_bot/risk/fees.py: FeeSchedule.
--   PaperStore     option_signal_bot/storage/paper_trading_store.py: Rows holds the tables, Monad the
--                  connection (committed tables, working tables, depth of the transactions) and
--                  `transaction`; the operations of PaperTradingStore bear their own names.
--   PaperAccount   option_signal_bot/execution/paper_account.py: valuation of positions, totals of
--                  closed trades, AccountSnapshot and its reconciliation, check_affordable,
--                  allocate_entry_fee. A property that two classes share is prefixed `account_`.
--   PaperBroker    option_signal_bot/execution/paper_broker.py: Types and Rows hold what is passed
--                  and written, Apply the methods that write (_rejected, _apply_buy, _apply_sell, the
--                  end of place_order and of settle_position), the module itself place_order and
--                  settle_position, Valuation the snapshot and reset, Drawdown the report of falls,
--                  Queries the methods that only read.
--                  place_order is cut into check_held, find_contract, find_fill and settle_fill, in
--                  the order of its checks.
--   WalkForward    option_signal_bot/backtest/walk_forward.py: build_folds.
--   Schedule       option_signal_bot/market/schedule.py: next_tick, skipped_ticks, RecordingWindow,
--                  decide.
--   Acknowledgement  option_signal_bot/storage/acknowledgement.py: the buttons, parse_callback, and
--                  AckStore.record and get.
--   Calendar       option_signal_bot/market/trading_calendar.py: Jalali holds the two calendars, Dates
--                  what is used of Python's dates, Ordinal and Years lemmas on them, the module
--                  itself TradingCalendar, whose deferred learning is a value that `run` carries
--                  out.
--   Tradability    option_signal_bot/market/tradability.py: Observation is LiquidityObservation and
--                  HistoryStats with their measures, the module itself the checks and evaluate.
--   Screener       option_signal_bot/market/tradability_screener.py: TradabilityScreener, what it reads of
--                  a contract and its book before the checks of Tradability.
--   Generator      option_signal_bot/signals/signal_generator.py: Types is the state of SignalGenerator with
--                  its keys, Groups the structures of several legs, the module itself _post_process,
--                  _process_leg_group, _process_batch, generate_for_symbol and run_once.
--   Ranking        option_signal_bot/market/opportunity_ranking.py: Types is the records with their
--                  scores, Components the five components, the module itself rank_opportunity and
--                  rank_opportunities, whose loop is rank_loop and whose gates are `gate`.
--   Corporate      option_signal_bot/market/corporate_actions.py: actions, their log, the adjustment of
--                  contracts and candles, and what fetch_corporate_actions keeps of its rows.
--   Risk           option_signal_bot/risk/risk_calculator.py: evaluate (`evaluate_risk`) and apply
--                  (`apply_risk`), with the fees of Fees.
--   Metrics        option_signal_bot/backtest/metrics.py: the measures without square roots.
--   Payoff         option_signal_bot/strategies/payoff.py: Leg is PositionLeg, Measures the costs and
--                  the tests for an open side, the module itself payoff, _extreme and what rests on
--                  them, Plan the curve, the break-evens and the plan of orders. Linear and Nodes
--                  hold the lines between strikes and the points at which _extreme looks.
--   Prelude        numbers, lists, sorting and tests that the parts share. Tests holds concrete runs.
--
-- How they interact: the broker takes contracts and order books from outside (`Market`), asks the
-- book for a fill and the fee schedule for its cost, checks the cash with PaperAccount, and writes
-- through PaperStore, each order or settlement in one transaction. A snapshot reads the store and
-- values every position against the book. PaperBroker.Ledger states the books of the account, cash
-- and cost of the positions against the initial balance and the earnings of the trades; its child
-- Runs is the step relation of orders, settlements and resets, from a new account on, where each call
-- has its own order books, listing and rates, and only the sizes of the contracts stay the same.
--
-- The screener asks the book of OrderBook what both sides of an order fill, and hands what it has seen
-- to the checks of Tradability; the ranking takes their reports and the rates of Fees. The signal
-- generator sizes each signal with Risk and then screens it at that size.
--
-- Choices. An amount of money is an integer number of hundredths of a rial, so that the tolerance of
-- 0.01 is 1; a rate is an integer number of millionths; a percentage is a quotient of two integers,
-- not divided out. Where the code divides floats, the model takes a `divide` as a parameter, and a
-- theorem that needs an exact division says so. Symbols, identifiers, dates and times of the store
-- are natural numbers, since the code only compares them. The words of a side are a data type, what
-- `side.lower()` gives. The clock, the fresh identifiers and the optional signal of a call are its
-- argument `Call`. A score of the ranking is in millionths of a percent; the texts of the keys against
-- repetition are taken apart. An exception is a value, and the writes before it stay in the connection.
--
-- The loops of the calendar run over a number of days that is known before them: 60 for the next
-- trading day, the length of the range for the others. A date is its ordinal, without Python's bounds.
--
-- Fuel: only `build_folds` takes fuel, for its loop; `total + 2` units are enough for a positive
-- step, and for a negative one no amount is. All else is structural recursion.
--
-- Not modelled: the SQL engine and the migration of old schemas, the texts for people, the rounding
-- of floats and their square roots (both are parameters or left out), network clients and the parts
-- of the program that are not named above (strategies, pricing, the context of a signal, reports,
-- notifiers, start-up).
pub mod Prelude
pub mod OrderBook
pub mod Fees
pub mod PaperStore
pub mod PaperAccount
pub mod PaperBroker
pub mod WalkForward
pub mod Schedule
pub mod Acknowledgement
pub mod Tests
pub mod Tradability
pub mod Ranking
pub mod Screener
pub mod Generator
pub mod Payoff
pub mod Calendar
pub mod Corporate
pub mod Risk
pub mod Metrics
