-- ===== src/PaperBroker/Types.antt =====
-- What `PaperBroker` of option_signal_bot/execution/paper_broker.py takes from outside, and the
-- small helpers of its methods.
use kh_optionbaz.Prelude.{ℕ, ◌-ℤ◌, ◌+ℤ◌, Option, none, some, ℤ, pos, Ratio, ratio}
use kh_optionbaz.OrderBook.{OrderBook}
use kh_optionbaz.PaperStore.{M, pure, raise, value_error}

-- The fields of `OptionContract` that the broker reads; `none` is an empty `ins_code`.
pub record Contract : Type 0 where
  pub contract_size : ℤ
  pub expiry : ℕ
  pub ins_code : Option ℕ

-- `resolve_contract` and `order_book_client.try_get_order_book`
pub record Market : Type 0 where
  pub resolve_contract : ℕ → Option Contract
  pub try_get_order_book : ℕ → ℕ → Option OrderBook

-- What a call takes from the clock (`now`, `stamp` of the store, `today`), from `uuid4` and from its
-- caller.
pub record Call : Type 0 where
  pub order_id : ℕ
  pub trade_id : ℕ
  pub now : ℕ
  pub stamp : ℕ
  pub today : ℕ
  pub signal_id : Option ℕ

abbrev with_code : Contract → Option ℕ → Option (Contract × ℕ)
with_code contract none = none
with_code contract (some ins_code) = some (contract, ins_code)

-- A contract with its `ins_code`: `contract is None or not contract.ins_code` is `none`.
abbrev pub listed : Option Contract → Option (Contract × ℕ)
listed none = none
listed (some contract) = with_code contract contract.ins_code

-- `raise ValueError` where something is None.
abbrev pub or_value_error : {A : Type 0} → Option A → M A
or_value_error none = raise value_error
or_value_error (some a) = pure a

-- `gross - recorded_costs if costs_known else None`
abbrev pub net_result : ℤ → ℤ → Option ℤ → Option ℤ → Option ℤ
net_result gross recorded (some e) (some x) = some (gross -ℤ recorded)
net_result gross recorded _ _ = none

abbrev pub basis : ℤ → Option ℤ → Option ℤ
basis cost none = none
basis cost (some fee) = some (cost +ℤ fee)

-- `x or 0.0`
abbrev pub ratio_or_zero : Option Ratio → Ratio
ratio_or_zero none = ratio (pos 0) (pos 1)
ratio_or_zero (some r) = r
