-- ===== src/PaperBroker/Ledger.antt =====
-- The books of the paper account: what the open positions have cost, and what the closed trades
-- have earned, over the tables of option_signal_bot/storage/paper_trading_store.py.
pub mod Positions
pub mod Orders
pub mod Sales
pub mod Placed
pub mod Settled
pub mod Runs
pub mod Balanced
use kh_optionbaz.Prelude.{
  ℕ, ◌≡◌, ◌≢◌, refl, sym, arith, Bool, true, false, Option, none, some, List, [], ◌∷◌, ℤ, pos, ◌+ℤ◌,
  ◌-ℤ◌, ◌*ℤ◌, ◌<ℤ◌, sum_of, All,
}
use kh_optionbaz.PaperAccount.{or_zero}
use kh_optionbaz.PaperStore.{open_status, Account, PositionRow, TradeRow, Tables, find_position}
use kh_optionbaz.PaperBroker.{Contract, Market, listed}

-- `contract.contract_size if contract else 1`
abbrev pub size_or_one : Option Contract → ℤ
size_or_one none = pos 1
size_or_one (some c) = c.contract_size

abbrev pub size_of : Market → ℕ → ℤ
size_of market symbol = size_or_one (market.resolve_contract symbol)

-- The contract of a symbol, where it is known, has the size that is expected.
abbrev pub IsSized : (ℕ → ℤ) → ℕ → Option Contract → Type 0
IsSized size symbol none = Unit
IsSized size symbol (some c) = c.contract_size ≡ size symbol

IsSized-own :
    (size : ℕ → ℤ) (symbol : ℕ) (known : Option Contract)
    → size symbol ≡ size_or_one known
    → IsSized size symbol known
IsSized-own size symbol none e = tt
IsSized-own size symbol (some c) e = sym e

pub size_of-IsSized :
    (market : Market) (symbol : ℕ)
    → IsSized (size_of market) symbol (market.resolve_contract symbol)
size_of-IsSized market symbol =
    IsSized-own (size_of market) symbol (market.resolve_contract symbol) refl

pub IsSized-resolved :
    (size : ℕ → ℤ) (symbol : ℕ) (known : Option Contract) {contract : Contract}
    → IsSized size symbol known
    → known ≡ some contract
    → contract.contract_size ≡ size symbol
IsSized-resolved size symbol known k e = rw e at k

listed-resolved :
    (known : Option Contract) {contract : Contract} {ins_code : ℕ}
    → listed known ≡ some (contract, ins_code)
    → known ≡ some contract
listed-resolved known e = ground arith

pub IsSized-listed :
    (size : ℕ → ℤ) (symbol : ℕ) (known : Option Contract) {contract : Contract} {ins_code : ℕ}
    → IsSized size symbol known
    → listed known ≡ some (contract, ins_code)
    → contract.contract_size ≡ size symbol
IsSized-listed size symbol known k e =
    IsSized-resolved size symbol known k (listed-resolved known e)

module _ (size : ℕ → ℤ) where
  -- What an open position has cost, its entry fees included.
  abbrev pub basis_of : PositionRow → ℤ
  basis_of p = p.average_price *ℤ p.quantity *ℤ size p.symbol +ℤ p.entry_fees

  abbrev pub basis_sum : List PositionRow → ℤ
  basis_sum = sum_of basis_of

-- What a closed trade has earned after its costs.
abbrev pub earned : TradeRow → ℤ
earned t = or_zero t.gross_pnl -ℤ or_zero t.entry_fee -ℤ or_zero t.exit_fee

-- No two positions have one symbol.
abbrev pub IsUnique : List PositionRow → Type 0
IsUnique [] = Unit
IsUnique (p ∷ ps) = (find_position p.symbol ps ≡ none) × IsUnique ps

-- Both costs of a trade are known.
pub record IsCosted (t : TradeRow) : Type 0 where
  pub entry_known : t.entry_fee ≢ none
  pub exit_known : t.exit_fee ≢ none

-- The books of an account `a`: every position is open and stands once, every cost is known, no order is
-- open any more, and the
-- cash and the cost of the positions are the initial balance and the earnings of the trades.
pub record IsLedger (size : ℕ → ℤ) (a : Account) (t : Tables) : Type 0 where
  pub opened : t.account ≡ some a
  pub held : All (λ p. pos 0 <ℤ p.quantity) t.positions
  pub unique : IsUnique t.positions
  pub fees_known : All (λ p. p.entry_fees_known ≡ true) t.positions
  pub done : All (λ o. o.status ≢ open_status) t.orders
  pub costed : All IsCosted t.trades
  pub balanced : a.cash +ℤ basis_sum size t.positions ≡ a.initial_balance +ℤ sum_of earned t.trades
