-- ===== src/PaperStore/Monad.antt =====
-- The connection of option_signal_bot/storage/paper_trading_store.py: what is on disk, what the
-- connection sees, and how deep the transactions are nested. An operation returns or raises, and
-- its writes stay in the connection either way.
use kh_optionbaz.Prelude.{ℕ, suc, ◌-◌, ◌==◌, if◌then◌else◌}
use package.kh_optionbaz.PaperStore.Rows.{Tables}

pub record Store : Type 0 where
  pub committed : Tables
  pub working : Tables
  pub depth : ℕ

pub data Fault : Type 0 where
  value_error integrity type_error : Fault

pub data Result (A : Type 0) : Type 0 where
  ok : A → Result A
  err : Fault → Result A

abbrev pub M : Type 0 → Type 0
M A = Store → Result A × Store

module _ {A : Type 0} where
  abbrev pub pure : A → M A
  pure a s = (ok a, s)

  abbrev pub raise : Fault → M A
  raise e s = (err e, s)

  abbrev pub read : (Tables → A) → M A
  read f s = (ok (f s.working), s)

-- What comes after an operation: the rest with its result, or its exception.
abbrev pub continue : {A B : Type 0} → (A → M B) → Result A × Store → Result B × Store
continue f (ok a, s) = f a s
continue f (err e, s) = (err e, s)

infixl 5 ◌>>=◌ ◌>>◌
abbrev pub ◌>>=◌ : {A B : Type 0} → M A → (A → M B) → M B
◌>>=◌ m f s = continue f (m s)

abbrev pub ◌>>◌ : {A B : Type 0} → M A → M B → M B
m >> k = m >>= λ _. k

-- `_commit`: only outside a transaction.
abbrev pub commit_if_outside : Store → Store
commit_if_outside s = if s.depth == 0 then record s { committed = s.working } else s

-- A statement that writes, with the `_commit` behind it.
abbrev pub write : (Tables → Tables) → M (Unit {0})
write f s = (ok tt, commit_if_outside (record s { working = f s.working }))

-- The end of an outermost transaction: a commit, or the rollback of an exception.
abbrev pub finish : {A : Type 0} → Result A × Store → Result A × Store
finish (ok a, s) = (ok a, record { committed = s.working; working = s.working; depth = 0 })
finish (err e, s) = (err e, record { committed = s.committed; working = s.committed; depth = 0 })

-- The end of a nested one: the outer transaction decides.
abbrev pub leave : {A : Type 0} → Result A × Store → Result A × Store
leave (r, s) = (r, record s { depth = s.depth - 1 })

-- `transaction`, with the block as its argument.
unfoldable pub transaction : {A : Type 0} → M A → M A
transaction body s =
    if s.depth == 0
    then finish (body (record s { depth = 1 }))
    else leave (body (record s { depth = suc s.depth }))
