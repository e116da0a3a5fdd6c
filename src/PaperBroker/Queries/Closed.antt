-- ===== src/PaperBroker/Queries/Closed.antt =====
-- `cancel_order` of option_signal_bot/execution/paper_broker.py has nothing to cancel.
use kh_optionbaz.Prelude.{
  ℕ, ◌≡◌, ◌≢◌, ◌==◌, refl, false, List, [], ◌∷◌, inl, inr, Bool-cases, All, ℤ,
}
use kh_optionbaz.PaperStore.{
  OrderStatus, pending, open_status, partially_filled, filled, cancelled, rejected, OrderRow, Store,
  Result, find_order, get_order,
}
use kh_optionbaz.PaperBroker.Ledger.Runs.{IsReached, IsReached-IsKept}
use kh_optionbaz.PaperBroker.Queries.{is_open, open_order, cancel_order}

not_open : (status : OrderStatus) → status ≢ open_status → is_open status ≡ false
not_open pending n = refl
not_open open_status n = absurd (n refl)
not_open partially_filled n = refl
not_open filled n = refl
not_open cancelled n = refl
not_open rejected n = refl

none_open :
    (id : ℕ) (os : List OrderRow)
    → All (λ o. o.status ≢ open_status) os
    → open_order (find_order id os) ≡ false
none_open id [] h = refl
none_open id (o ∷ os) h = elim (Bool-cases (o.order_id == id)) [
  | inl b ↦ rw b (not_open o.status h.0)
  | inr b ↦ rw b (none_open id os h.1)
]

-- In a store that is reached no order is open: `cancel_order` says false of every identifier, and
-- it writes nothing.
cancel_order_refused :
    (divide : ℤ → ℤ → ℤ) (sizes : ℕ → ℤ) (initial : ℤ) (s : Store) (id : ℕ)
    → IsReached divide sizes initial s
    → cancel_order id s ≡ (Result.ok false, s)
unfolding cancel_order get_order
cancel_order_refused divide sizes initial s id r =
    let k = IsReached-IsKept divide sizes initial s r in
    rw (none_open id s.working.orders k.ledger.done) refl
