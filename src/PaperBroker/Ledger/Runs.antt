-- ===== src/PaperBroker/Ledger/Runs.antt =====
-- Runs of option_signal_bot/execution/paper_broker.py: orders, settlements and resets, one after
-- another, from a new account.
use kh_optionbaz.Prelude.{ℕ, ◌≡◌, refl, arith, true, false, Option, none, some, [], ℤ, int_laws}
use kh_optionbaz.OrderBook.{SideWord}
use kh_optionbaz.Fees.{FeeSchedule, rates_known}
use kh_optionbaz.PaperStore.{Account, Store, has_trade, init_account, transaction}
use kh_optionbaz.PaperBroker.{Market, Call, place_order, settle_position}
use kh_optionbaz.PaperBroker.Effects.{at_rest}
use kh_optionbaz.PaperBroker.Ledger.{IsSized}
use kh_optionbaz.PaperBroker.Ledger.Placed.{IsKept, IsExactOrder, place_order-IsKept_sized}
use kh_optionbaz.PaperBroker.Ledger.Settled.{settle_position-IsKept_sized}
use kh_optionbaz.PaperBroker.Valuation.{reset}

-- The database before the first start.
abbrev pub empty_store : Store
empty_store = at_rest (record { account = none; orders = []; positions = []; trades = [] })

module _ (divide : ℤ → ℤ → ℤ) (sizes : ℕ → ℤ) (initial : ℤ) where
  -- The stores that the broker reaches. Each call has its own market (what is listed, and the order
  -- books) and its own rates, which are known; only the sizes of the contracts stay the same. A call
  -- takes a fresh identifier for its trade, and a buy that adds to a position is divided without
  -- remainder.
  pub data IsReached : Store → Type 0 where
    opened : (now : ℕ) → IsReached (init_account initial now empty_store).1
    ordered :
        (s : Store) (market : Market) (fees : FeeSchedule) (symbol : ℕ) (side : SideWord)
        (quantity : ℤ) (c : Call)
        → IsReached s
        → IsSized sizes symbol (market.resolve_contract symbol)
        → (rates : rates_known fees ≡ true)
        → IsExactOrder divide fees market symbol side quantity c s rates
        → has_trade c.trade_id s.working.trades ≡ false
        → IsReached (place_order divide fees market symbol side quantity c s).1
    closed :
        (s : Store) (market : Market) (fees : FeeSchedule) (symbol : ℕ) (price : Option ℤ)
        (c : Call)
        → IsReached s
        → IsSized sizes symbol (market.resolve_contract symbol)
        → rates_known fees ≡ true
        → has_trade c.trade_id s.working.trades ≡ false
        → IsReached (settle_position divide fees market symbol price c s).1
    restarted :
        (s : Store) (market : Market) (c : Call)
        → IsReached s
        → IsReached (reset divide market c s).1

  opened-IsKept : (now : ℕ) → IsKept sizes initial (init_account initial now empty_store).1
  unfolding init_account
  opened-IsKept now = record {
    settled = record { outside = refl; clean = refl };
    account = _;
    ledger = record {
      opened = refl;
      done = tt;
      held = tt;
      unique = tt;
      fees_known = tt;
      costed = tt;
      balanced = omega int_laws;
    };
    began = refl;
  }

  reset_effect :
      (s : Store) (market : Market) (a : Account) (c : Call)
      → s.depth ≡ 0
      → s.working.account ≡ some a
      → (reset divide market c s).1
        ≡ at_rest (record {
          account = some (record {
            cash = a.initial_balance;
            initial_balance = a.initial_balance;
            created_at = a.created_at;
            reset_at = some c.now;
          });
          orders = [];
          positions = [];
          trades = [];
        })
  unfolding reset transaction
  reset_effect s market a c h e = ground arith

  reset-IsKept :
      (s : Store) (market : Market) (c : Call)
      → IsKept sizes initial s
      → IsKept sizes initial (reset divide market c s).1
  reset-IsKept s market c k =
      rw (reset_effect s market k.account c k.settled.outside k.ledger.opened) (record {
        settled = record { outside = refl; clean = refl };
        account = _;
        ledger = record {
          opened = refl;
          done = tt;
          held = tt;
          unique = tt;
          fees_known = tt;
          costed = tt;
          balanced = omega int_laws;
        };
        began = k.began;
      })

  -- The books are kept in every store that is reached.
  pub IsReached-IsKept : (s : Store) → IsReached s → IsKept sizes initial s
  IsReached-IsKept s (opened now) = opened-IsKept now
  IsReached-IsKept s (ordered t market fees symbol side quantity c r sized rates exact fresh) =
      place_order-IsKept_sized divide fees market symbol side quantity c t rates sizes sized initial
        (IsReached-IsKept t r) exact fresh
  IsReached-IsKept s (closed t market fees symbol price c r sized rates fresh) =
      settle_position-IsKept_sized divide fees market symbol price c t rates sizes sized initial
        (IsReached-IsKept t r) fresh
  IsReached-IsKept s (restarted t market c r) = reset-IsKept t market c (IsReached-IsKept t r)
