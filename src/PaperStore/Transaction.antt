-- ===== src/PaperStore/Transaction.antt =====
-- `PaperTradingStore.transaction` of option_signal_bot/storage/paper_trading_store.py: all or
-- nothing, also when transactions are nested.
use kh_optionbaz.Prelude.{suc, ◌<◌, ◌≡◌, refl, ◌∙◌, arith}
use kh_optionbaz.PaperStore.{
  Store, Tables, M, Result, ok, err, pure, read, write, ◌>>=◌, transaction, continue, finish,
}

-- Between transactions the connection sees what is on disk.
pub record IsSettled (s : Store) : Type 0 where
  pub outside : s.depth ≡ 0
  pub clean : s.committed ≡ s.working

-- Inside a transaction `m` leaves the disk alone and closes what it opens.
abbrev pub IsGuarded : {A : Type 0} → M A → Type 0
IsGuarded m =
    (s : Store) → 0 < s.depth → ((m s).1.committed ≡ s.committed) × ((m s).1.depth ≡ s.depth)

module _ {A : Type 0} where
  pub pure-IsGuarded : (a : A) → IsGuarded (pure a)
  pure-IsGuarded a s h = (refl, refl)

  pub read-IsGuarded : (f : Tables → A) → IsGuarded (read f)
  read-IsGuarded f s h = (refl, refl)

  continue-guarded :
      {B : Type 0} (f : A → M B) (s : Store) (r : Result A × Store)
      → ((a : A) → IsGuarded (f a))
      → 0 < s.depth
      → (r.1.committed ≡ s.committed) × (r.1.depth ≡ s.depth)
      → ((continue f r).1.committed ≡ s.committed) × ((continue f r).1.depth ≡ s.depth)
  continue-guarded f s (ok a, t) g h k = let (c, d) = g a t (rw k.1 h) in (c ∙ k.0, d ∙ k.1)
  continue-guarded f s (err e, t) g h k = k

  pub >>=-IsGuarded :
      {B : Type 0} (m : M A) (f : A → M B)
      → IsGuarded m
      → ((a : A) → IsGuarded (f a))
      → IsGuarded (m >>= f)
  >>=-IsGuarded m f g k s h = continue-guarded f s (m s) k h (g s h)

pub write-IsGuarded : (f : Tables → Tables) → IsGuarded (write f)
write-IsGuarded f s h = ground arith

-- A transaction that stands inside another one.
pub transaction-IsGuarded : {A : Type 0} (m : M A) → IsGuarded m → IsGuarded (transaction m)
unfolding transaction
transaction-IsGuarded m g s h = ground (arith, g (record s { depth = suc s.depth }) (omega arith))

-- What the end of a transaction leaves: on an exception the store as it was, and else the tables
-- that the block has made.
abbrev pub Ends : {A : Type 0} → Result A → Store → Tables → Store → Type 0
Ends (ok a) before made after = after.working ≡ made
Ends (err e) before made after = after ≡ before

finish_atomic :
    {A : Type 0} (s : Store) (r : Result A × Store)
    → IsSettled s
    → r.1.committed ≡ s.committed
    → ((finish r).0 ≡ r.0) × IsSettled (finish r).1 × Ends r.0 s r.1.working (finish r).1
finish_atomic s (ok a, t) h c = (refl, record { outside = refl; clean = refl }, refl)
finish_atomic s (err e, t) h c =
    (refl, record { outside = refl; clean = refl }, ground (arith, h.outside, h.clean, c))

transaction_outside :
    {A : Type 0} (body : M A) (s : Store)
    → s.depth ≡ 0
    → transaction body s ≡ finish (body (record s { depth = 1 }))
unfolding transaction
transaction_outside body s h = ground arith

-- Where no statement of the block touches the disk inside a transaction, a transaction that is
-- opened between transactions returns or raises what its block does, and
-- ends settled: with every write of the block, or, on an exception, with none of them.
pub transaction_atomic :
    {A : Type 0} (body : M A) (s : Store)
    → IsGuarded body
    → IsSettled s
    → let (r, made) = body (record s { depth = 1 }) in
      let (r', after) = transaction body s in
      (r' ≡ r) × IsSettled after × Ends r s made.working after
transaction_atomic body s g h =
    rw (transaction_outside body s h.outside) (
      finish_atomic s (body (record s { depth = 1 })) h
        (g (record s { depth = 1 }) (omega arith)).0)
