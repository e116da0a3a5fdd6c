-- ===== src/Acknowledgement.antt =====
-- option_signal_bot/storage/acknowledgement.py: the buttons under a signal, what they send back, and
-- the table of the answers. A text is a list of code points; which of them Python's `strip` takes
-- for blank is a parameter.
pub mod Callback
pub mod Table
use kh_optionbaz.Prelude.{
  ℕ, Bool, true, false, ◌&&◌, not, ◌==◌, Option, none, some, List, [], ◌∷◌, ◌++◌, keep,
  if◌then◌else◌,
}

-- VALID_ACTIONS
pub data Action : Type 0 where
  seen taken skipped : Action

-- "seen", "taken", "skipped"
abbrev pub action_text : Action → List ℕ
action_text seen = 115 ∷ 101 ∷ 101 ∷ 110 ∷ []
action_text taken = 116 ∷ 97 ∷ 107 ∷ 101 ∷ 110 ∷ []
action_text skipped = 115 ∷ 107 ∷ 105 ∷ 112 ∷ 112 ∷ 101 ∷ 100 ∷ []

abbrev pub same_text : List ℕ → List ℕ → Bool
same_text [] [] = true
same_text (x ∷ xs) (y ∷ ys) = (x == y) && same_text xs ys
same_text _ _ = false

-- `action in VALID_ACTIONS`, with the action that it is.
unfoldable pub action_of : List ℕ → Option Action
action_of text =
    if same_text text (action_text seen)
    then some seen
    else if same_text text (action_text taken)
    then some taken
    else if same_text text (action_text skipped)
    then some skipped
    else none

abbrev pub colon : ℕ
colon = 58

-- "ack"
abbrev pub tag_text : List ℕ
tag_text = 97 ∷ 99 ∷ 107 ∷ []

-- The `callback_data` of `_button`.
unfoldable pub callback_data : Action → List ℕ → List ℕ
callback_data action signal_id = tag_text ++ (colon ∷ action_text action) ++ (colon ∷ signal_id)

-- `build_keyboard`: the rows of the actions.
abbrev pub keyboard : List ℕ → List (List (List ℕ))
keyboard signal_id =
    (callback_data taken signal_id ∷ callback_data skipped signal_id ∷ [])
    ∷ (callback_data seen signal_id ∷ [])
    ∷ []

-- A text up to its first colon, and what stands behind it.
abbrev pub into_head : ℕ → Option (List ℕ × List ℕ) → Option (List ℕ × List ℕ)
into_head c none = none
into_head c (some (head, tail)) = some (c ∷ head, tail)

abbrev pub cut : List ℕ → Option (List ℕ × List ℕ)
cut [] = none
cut (c ∷ cs) = let rest = cut cs in if c == colon then some ([], cs) else into_head c rest

module _ (is_space : ℕ → Bool) where
  abbrev lstrip : List ℕ → List ℕ
  lstrip [] = []
  lstrip (c ∷ cs) = let rest = lstrip cs in if is_space c then rest else c ∷ cs

  abbrev after_blank : ℕ → List ℕ → List ℕ
  after_blank c [] = if is_space c then [] else c ∷ []
  after_blank c (d ∷ ds) = c ∷ d ∷ ds

  abbrev rstrip : List ℕ → List ℕ
  rstrip [] = []
  rstrip (c ∷ cs) = after_blank c (rstrip cs)

  -- `str.strip`
  unfoldable pub strip : List ℕ → List ℕ
  strip text = lstrip (rstrip text)

  abbrev pub with_id : Option Action → List ℕ → Option (Action × List ℕ)
  with_id none signal_id = none
  with_id (some action) [] = none
  with_id (some action) (c ∷ cs) = some (action, c ∷ cs)

  abbrev pub third_part : Option (List ℕ × List ℕ) → Option (Action × List ℕ)
  third_part none = none
  third_part (some (action, signal_id)) = with_id (action_of action) (strip signal_id)

  abbrev pub second_part : Option (List ℕ × List ℕ) → Option (Action × List ℕ)
  second_part none = none
  second_part (some (tag, rest)) = if same_text tag tag_text then third_part (cut rest) else none

  -- `parse_callback`
  unfoldable pub parse_callback : List ℕ → Option (Action × List ℕ)
  unfolding action_of
  parse_callback data_text = second_part (cut data_text)

-- A row of the table.
pub record Acknowledgement : Type 0 where
  pub signal_id : List ℕ
  pub acknowledged_at : ℕ
  pub action : Action
  pub source : List ℕ
  pub note : Option (List ℕ)

-- `is_executed`
unfoldable pub is_executed : Acknowledgement → Bool
is_executed a = same_text (action_text a.action) (action_text taken)

-- INSERT OR REPLACE on the primary key.
abbrev pub replace : Acknowledgement → List Acknowledgement → List Acknowledgement
replace a rows = keep (λ r. not (same_text r.signal_id a.signal_id)) rows ++ (a ∷ [])

-- `AckStore.record`; `none` is a ValueError.
abbrev record_as :
    Option Action
    → List ℕ
    → List ℕ
    → Option (List ℕ)
    → ℕ
    → List Acknowledgement
    → Option (Acknowledgement × List Acknowledgement)
record_as none signal_id source remark moment rows = none
record_as (some action) signal_id source remark moment rows =
    let a : Acknowledgement = record {
      signal_id = signal_id;
      acknowledged_at = moment;
      action = action;
      source = source;
      note = remark;
    } in
    some (a, replace a rows)

unfoldable pub record_ack :
    List ℕ
    → List ℕ
    → List ℕ
    → Option (List ℕ)
    → ℕ
    → List Acknowledgement
    → Option (Acknowledgement × List Acknowledgement)
unfolding action_of
record_ack signal_id action source remark moment rows =
    record_as (action_of action) signal_id source remark moment rows

-- `AckStore.get`
unfoldable pub get_ack : List ℕ → List Acknowledgement → Option Acknowledgement
get_ack signal_id [] = none
get_ack signal_id (r ∷ rows) =
    let rest = get_ack signal_id rows in if same_text r.signal_id signal_id then some r else rest
