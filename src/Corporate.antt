-- ===== src/Corporate.antt =====
-- option_signal_bot/market/corporate_actions.py: what a capital increase or a cash dividend changes of
-- a contract. `divide` is the division of floats, brought back to the unit of the amounts, and
-- `round_div` the division of floats that is rounded to a whole number. Texts are left out.
pub mod Periods
pub mod Increases
use kh_optionbaz.Prelude.{
  ℕ, ◌*◌, Bool, true, false, not, ◌&&◌, ◌||◌, Option, none, some, List, [], ◌∷◌, ◌++◌, map, keep,
  if◌then◌else◌, ltb, leb, ◌==◌, ltb_ℤ, leb_ℤ, ℤ, pos, ◌-ℤ◌, ◌*ℤ◌, max_ℤ, Ratio, ratio, same,
  sort_by,
}

-- The `kind` of an action, a text in the code.
pub data ActionKind : Type 0 where
  capital_increase cash_dividend unknown_kind : ActionKind

pub record CorporateAction : Type 0 where
  pub underlying : ℕ
  pub effective_date : ℕ
  pub kind : ActionKind
  pub ratio : Option Ratio
  pub dividend : Option ℤ
  pub shares_old : Option ℤ
  pub shares_new : Option ℤ

abbrev is_positive : Option Ratio → Bool
is_positive none = false
is_positive (some r) = ltb_ℤ (pos 0) (r.num *ℤ r.den)

abbrev is_amount : Option ℤ → Bool
is_amount none = false
is_amount (some n) = not (ltb_ℤ n (pos 0))

abbrev kind_valid : CorporateAction → ActionKind → Bool
kind_valid a capital_increase = is_positive a.ratio
kind_valid a cash_dividend = is_amount a.dividend
kind_valid a unknown_kind = false

-- `__post_init__`; `none` is its ValueError.
unfoldable pub checked : CorporateAction → Option CorporateAction
checked a = if kind_valid a a.kind then some a else none

-- A row of the share changes: what `float` and `parse_tsetmc_date` give, and `none` where they fail.
pub record ShareChange : Type 0 where
  pub number_of_share_old : Option ℤ
  pub number_of_share_new : Option ℤ
  pub when : Option ℕ

abbrev change_of : ℕ → Option ℤ → Option ℤ → Option ℕ → Option CorporateAction
change_of underlying (some old) (some new) (some when) =
    let action : CorporateAction = record {
      underlying = underlying;
      effective_date = when;
      kind = capital_increase;
      ratio = some (ratio old new);
      dividend = none;
      shares_old = some old;
      shares_new = some new;
    } in
    if leb_ℤ old (pos 0) || leb_ℤ new (pos 0) || same old new then none else checked action
change_of underlying _ _ _ = none

unfoldable pub from_share_change : ℕ → ShareChange → Option CorporateAction
unfolding checked
from_share_change underlying row =
    change_of underlying row.number_of_share_old row.number_of_share_new row.when

-- The fields of an option contract that are adjusted.
pub record Terms : Type 0 where
  pub strike : ℤ
  pub contract_size : ℤ

abbrev ratio_or_one : Option Ratio → Ratio
ratio_or_one none = ratio (pos 1) (pos 1)
ratio_or_one (some r) = r

abbrev amount_or_zero : Option ℤ → ℤ
amount_or_zero none = pos 0
amount_or_zero (some n) = n

abbrev pub is_increase : ActionKind → Bool
is_increase capital_increase = true
is_increase cash_dividend = false
is_increase unknown_kind = false

-- `CorporateActionLog`: its actions, in the order of their dates.
abbrev pub by_date : CorporateAction → CorporateAction → Bool
by_date a b = ltb a.effective_date b.effective_date

unfoldable pub log_of : List CorporateAction → List CorporateAction
log_of actions = sort_by by_date actions

unfoldable pub add_action : CorporateAction → List CorporateAction → List CorporateAction
add_action action actions = sort_by by_date (actions ++ action ∷ [])

abbrev pub up_to : Option ℕ → ℕ → Bool
up_to none day = true
up_to (some end) day = leb day end

-- `since`
unfoldable pub since : List CorporateAction → ℕ → Option ℕ → List CorporateAction
since actions reference until =
    keep (λ a. ltb reference a.effective_date && up_to until a.effective_date) actions

abbrev times : Ratio → Ratio → Ratio
times a b = ratio (a.num *ℤ b.num) (a.den *ℤ b.den)

abbrev ratio_of : List CorporateAction → Ratio → Ratio
ratio_of [] r = r
ratio_of (a ∷ rest) r =
    ratio_of rest (if is_increase a.kind then times r (ratio_or_one a.ratio) else r)

unfoldable pub net_ratio : List CorporateAction → ℕ → Option ℕ → Ratio
unfolding since
net_ratio actions reference until = ratio_of (since actions reference until) (ratio (pos 1) (pos 1))

pub record Candle : Type 0 where
  pub date : ℕ
  pub opening : ℤ
  pub high : ℤ
  pub low : ℤ
  pub close : ℤ
  pub volume : ℤ

abbrev is_one : Ratio → Bool
is_one r = same r.num r.den

-- The key of `seen` in `fetch_corporate_actions`.
abbrev pub same_number : Option ℤ → Option ℤ → Bool
same_number none none = true
same_number (some a) (some b) = same a b
same_number _ _ = false

abbrev pub same_change : CorporateAction → CorporateAction → Bool
same_change a b = same_number a.shares_old b.shares_old && same_number a.shares_new b.shares_new

abbrev pub seen_in : CorporateAction → List CorporateAction → Bool
seen_in a [] = false
seen_in a (b ∷ seen) = same_change b a || seen_in a seen

abbrev pub add_new : Option CorporateAction → List CorporateAction → List CorporateAction
add_new none seen = seen
add_new (some a) seen = if seen_in a seen then seen else seen ++ a ∷ []

-- The loop of `fetch_corporate_actions`, with the actions so far.
unfoldable pub collect : ℕ → List ShareChange → List CorporateAction → List CorporateAction
unfolding from_share_change
collect underlying [] seen = seen
collect underlying (row ∷ rows) seen =
    collect underlying rows (add_new (from_share_change underlying row) seen)

unfoldable pub fetch_corporate_actions : ℕ → List ShareChange → List CorporateAction
unfolding collect log_of
fetch_corporate_actions underlying rows = log_of (collect underlying rows [])

-- `none` is a request that failed.
unfoldable pub try_fetch_corporate_actions : ℕ → Option (List ShareChange) → List CorporateAction
unfolding fetch_corporate_actions
try_fetch_corporate_actions underlying none = []
try_fetch_corporate_actions underlying (some rows) = fetch_corporate_actions underlying rows

module _ (divide round_div : ℤ → ℤ → ℤ) where
  abbrev scaled : ℤ → Ratio → ℤ
  scaled x r = divide (x *ℤ r.num) r.den

  -- `CorporateAction.apply`
  unfoldable pub apply_action : CorporateAction → Terms → Terms
  apply_action a c =
      let r = ratio_or_one a.ratio in
      if is_increase a.kind
      then record {
        strike = scaled c.strike r;
        contract_size = max_ℤ (round_div (c.contract_size *ℤ r.den) r.num) (pos 1);
      }
      else record {
        strike = max_ℤ (c.strike -ℤ amount_or_zero a.dividend) (pos 0);
        contract_size = c.contract_size;
      }

  abbrev pub apply_all : List CorporateAction → Terms → Terms
  apply_all [] c = c
  apply_all (a ∷ rest) c = apply_all rest (apply_action a c)

  unfoldable pub adjust : List CorporateAction → Terms → ℕ → ℕ → Terms
  unfolding since
  adjust actions contract issued_on today =
      apply_all (since actions issued_on (some today)) contract

  abbrev adjusted : Ratio → Candle → Candle
  adjusted r c = if is_one r then c else record {
    date = c.date;
    opening = scaled c.opening r;
    high = scaled c.high r;
    low = scaled c.low r;
    close = scaled c.close r;
    volume = c.volume;
  }

  unfoldable pub adjust_history : List CorporateAction → List Candle → List Candle
  unfolding net_ratio
  adjust_history [] candles = candles
  adjust_history (a ∷ rest) candles =
      map (λ c. adjusted (net_ratio (a ∷ rest) c.date none) c) candles
