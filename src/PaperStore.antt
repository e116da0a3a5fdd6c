-- ===== src/PaperStore.antt =====
-- option_signal_bot/storage/paper_trading_store.py: the tables of the paper-trading account and
-- the connection with its transactions. Symbols, identifiers and times are numbers, since the code
-- only compares them. The texts of `metadata` and the SQL engine are not modelled.
mod Rows
mod Monad
pub mod Transaction
pub use Rows.*
unfoldable pub use Monad.*
use kh_optionbaz.Prelude.{
  ℕ, zero, suc, Bool, true, false, Option, none, some, List, [], ◌∷◌, ◌++◌, keep, if◌then◌else◌,
  not, ◌==◌, ltb, leb, leb_ℤ, ℤ, pos, sort_by,
}

-- `get_account`
unfoldable pub get_account : M (Option Account)
get_account = read (λ t. t.account)

abbrev new_account : ℤ → ℕ → Account
new_account balance now = record {
  cash = balance;
  initial_balance = balance;
  created_at = now;
  reset_at = none;
}

abbrev with_account : Account → Tables → Tables
with_account a t = record t { account = some a }

-- `init_account`: only where there is none.
unfoldable pub init_account : ℤ → ℕ → M (Option Account)
unfolding get_account
init_account balance now = do
  existing ← get_account
  elim existing [
    | some a ↦ pure (some a)
    | none ↦ write (with_account (new_account balance now)) >> get_account
  ]

abbrev pub set_cash : ℤ → Option Account → Option Account
set_cash cash none = none
set_cash cash (some a) = some (record a { cash = cash })

unfoldable pub update_cash : ℤ → M (Unit {0})
update_cash cash = write (λ t. record t { account = set_cash cash t.account })

-- INSERT OR REPLACE on the primary key: the old row goes, the new one comes last.
abbrev pub without_order : ℕ → List OrderRow → List OrderRow
without_order id = keep (λ o. not (o.order_id == id))

abbrev pub put_order : OrderRow → List OrderRow → List OrderRow
put_order o os = without_order o.order_id os ++ (o ∷ [])

unfoldable pub save_order : OrderRow → M (Unit {0})
save_order o = write (λ t. record t { orders = put_order o t.orders })

abbrev pub find_order : ℕ → List OrderRow → Option OrderRow
find_order id [] = none
find_order id (o ∷ os) = if o.order_id == id then some o else find_order id os

unfoldable pub get_order : ℕ → M (Option OrderRow)
get_order id = read (λ t. find_order id t.orders)

-- `list_orders`: newest first. A limit of `none` or 0 is no limit.
abbrev take : ℕ → List OrderRow → List OrderRow
take n [] = []
take zero (o ∷ os) = []
take (suc n) (o ∷ os) = o ∷ take n os

abbrev limited : Option ℕ → List OrderRow → List OrderRow
limited none os = os
limited (some n) os = if n == 0 then os else take n os

unfoldable pub list_orders : Option ℕ → M (List OrderRow)
list_orders limit =
    read (λ t. limited limit (sort_by (λ x y. ltb y.created_at x.created_at) t.orders))

abbrev pub find_position : ℕ → List PositionRow → Option PositionRow
find_position s [] = none
find_position s (p ∷ ps) = if p.symbol == s then some p else find_position s ps

unfoldable pub get_position : ℕ → M (Option PositionRow)
get_position s = read (λ t. find_position s t.positions)

abbrev pub without_position : ℕ → List PositionRow → List PositionRow
without_position s = keep (λ p. not (p.symbol == s))

unfoldable pub delete_position : ℕ → M (Unit {0})
delete_position s = write (λ t. record t { positions = without_position s t.positions })

-- The upsert: a new row, or all columns of the old one but `opened_at`.
abbrev pub put_position : PositionRow → List PositionRow → List PositionRow
put_position r [] = r ∷ []
put_position r (p ∷ ps) =
    let rest = put_position r ps in
    if p.symbol == r.symbol then record r { opened_at = p.opened_at } ∷ ps else p ∷ rest

unfoldable pub upsert_position : PositionRow → M (Unit {0})
unfolding delete_position
upsert_position r =
    if leb_ℤ r.quantity (pos 0)
    then delete_position r.symbol
    else write (λ t. record t { positions = put_position r t.positions })

-- ORDER BY symbol
unfoldable pub list_positions : M (List PositionRow)
list_positions = read (λ t. sort_by (λ x y. ltb x.symbol y.symbol) t.positions)

abbrev pub has_trade : ℕ → List TradeRow → Bool
has_trade id [] = false
has_trade id (t ∷ ts) = if t.trade_id == id then true else has_trade id ts

-- A plain INSERT: a second row under one primary key is an IntegrityError.
unfoldable pub record_trade : TradeRow → M (Unit {0})
record_trade r = do
  taken ← read (λ t. has_trade r.trade_id t.trades)
  if taken then raise integrity else write (λ t. record t { trades = t.trades ++ (r ∷ []) })

abbrev since_test : Option ℕ → TradeRow → Bool
since_test none t = true
since_test (some since) t = leb since t.closed_at

-- `list_trades`: oldest first; `since` is the time that `days` gives, if it is given.
abbrev pub trades_since : Option ℕ → List TradeRow → List TradeRow
trades_since since ts = sort_by (λ x y. ltb x.closed_at y.closed_at) (keep (since_test since) ts)

unfoldable pub list_trades : Option ℕ → M (List TradeRow)
list_trades since = read (λ t. trades_since since t.trades)

abbrev reset_account : ℤ → ℕ → Option Account → Account
reset_account balance now none = record {
  cash = balance;
  initial_balance = balance;
  created_at = now;
  reset_at = some now;
}
reset_account balance now (some a) = record {
  cash = balance;
  initial_balance = balance;
  created_at = a.created_at;
  reset_at = some now;
}

-- `reset`: all rows go, and the balance starts anew.
unfoldable pub reset : ℤ → ℕ → M (Option Account)
unfolding get_account transaction
reset balance now =
    transaction (do
      write (λ t. record t { orders = [] })
      write (λ t. record t { positions = [] })
      write (λ t. record t { trades = [] })
      write (λ t. record t { account = some (reset_account balance now t.account) }))
    >> get_account
