-- ===== src/PaperBroker/Expiry.antt =====
-- `settle_position` and the expiry of contracts in option_signal_bot/execution/paper_broker.py.
use kh_optionbaz.Prelude.{
  ℕ, ◌<◌, ◌≡◌, ◌⊎◌, refl, ap, sym, ◌∙◌, arith, Option, none, some, inl, inr, Bool-cases,
  Option-cases, ltb, ltb_ℤ, ℤ, pos, ◌≤ℤ◌,
}
use kh_optionbaz.OrderBook.{SideWord}
use kh_optionbaz.Fees.{FeeSchedule}
use kh_optionbaz.PaperStore.{
  PositionRow, TradeRow, Store, Reason, Result, err, value_error, find_position, get_position,
}
use kh_optionbaz.PaperBroker.{
  Contract, Market, Call, place_order, reject, settle_position, settle_open, listed,
}
use kh_optionbaz.PaperBroker.Reject.{Fill, place_order-Ends}

module _ (divide : ℤ → ℤ → ℤ) (fees : FeeSchedule) (market : Market) (symbol : ℕ) (c : Call)
    (s : Store) where
  -- A settlement that passes every check.
  pub record Settlement (price : Option ℤ) : Type 0 where
    pub position : PositionRow
    pub contract : Contract
    pub value : ℤ
    pub found : find_position symbol s.working.positions ≡ some position
    pub given : price ≡ some value
    pub value_nonneg : pos 0 ≤ℤ value
    pub resolved : market.resolve_contract symbol ≡ some contract
    pub over : contract.expiry < c.today

  abbrev pub settle_run : {price : Option ℤ} → Settlement price → Result TradeRow × Store
  settle_run f = settle_open divide fees symbol f.value f.position c f.contract s

  -- `settle_position` raises ValueError and changes nothing, or its checks hold: there is a position,
  -- the price is a number that is not negative, and the contract is known and past its expiry.
  pub settle_position_ends :
      (price : Option ℤ)
      → (settle_position divide fees market symbol price c s ≡ (err value_error, s))
        ⊎ ((f : Settlement price) × (settle_position divide fees market symbol price c s
              ≡ settle_run f))
  unfolding settle_position get_position
  settle_position_ends none = elim (Option-cases (find_position symbol s.working.positions)) [
    | inl n ↦ inl (rw n)
    | inr (p, e) ↦ inl (rw e)
  ]
  settle_position_ends (some v) = elim (Option-cases (find_position symbol s.working.positions)) [
    | inl n ↦ inl (rw n)
    | inr (p, e) ↦ elim (Bool-cases (ltb_ℤ v (pos 0))) [
      | inl z ↦ inl (rw (e, z))
      | inr z ↦ elim (Option-cases (market.resolve_contract symbol)) [
        | inl n ↦ inl (rw (e, z, n))
        | inr (contract, r) ↦ elim (Bool-cases (ltb contract.expiry c.today)) [
          | inr w ↦ inl (rw (e, z, r, w))
          | inl w ↦ inr (
            record {
              position = p;
              contract = contract;
              value = v;
              found = e;
              given = refl;
              value_nonneg = ground arith;
              resolved = r;
              over = ground arith;
            },
            rw (e, z, r, w),
          )
        ]
      ]
    ]
  ]

-- On one day, with one listing of the symbol: an order on a store `s`, and a settlement on a store `u`.
module _ (divide : ℤ → ℤ → ℤ) (market market' : Market) (symbol : ℕ) (c d : Call)
    (one_day : d.today ≡ c.today)
    (one_listing : market'.resolve_contract symbol ≡ market.resolve_contract symbol) where
  same_contract :
      {contract : Contract} {ins_code : ℕ} {other : Contract}
      → listed (market.resolve_contract symbol) ≡ some (contract, ins_code)
      → market.resolve_contract symbol ≡ some other
      → contract ≡ other
  same_contract e r = ground arith

  both :
      {fees fees' : FeeSchedule} {side : SideWord} {quantity : ℤ} {price : Option ℤ} {s u : Store}
      → Fill divide fees market symbol side quantity c s
      → Settlement divide fees' market' symbol d u price
      → ⊥
  both f g = omega (
    arith,
    f.alive,
    g.over,
    one_day,
    ap (λ (k : Contract). k.expiry) (same_contract f.listed_as (sym one_listing ∙ g.resolved)),
  )

  -- On one day a symbol is traded by an order or closed by a settlement, never both: where the
  -- contract of the symbol is the same, an order is rejected, or `settle_position` raises ValueError
  -- and changes nothing, whichever comes first, on any two stores (so also on the store that the
  -- order leaves), at any price, with any books and rates.
  pub order_excludes_settlement :
      (fees fees' : FeeSchedule) (side : SideWord) (quantity : ℤ) (price : Option ℤ) (s u : Store)
      → ((why : Reason) × (place_order divide fees market symbol side quantity c s
            ≡ reject symbol side quantity c why s))
        ⊎ (settle_position divide fees' market' symbol price d u ≡ (err value_error, u))
  order_excludes_settlement fees fees' side quantity price s u =
      elim (place_order-Ends divide fees market symbol side quantity c s) [
        | inl rejected ↦ inl rejected
        | inr (f, _) ↦ elim (settle_position_ends divide fees' market' symbol d u price) [
          | inl refused ↦ inr refused
          | inr (g, _) ↦ absurd (both f g)
        ]
      ]
