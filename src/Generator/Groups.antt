-- ===== src/Generator/Groups.antt =====
-- The structures of several legs in option_signal_bot/signals/signal_generator.py: how a batch is cut into
-- them, and the quantities of their legs.
use kh_optionbaz.Prelude.{
  ℕ, ◌==◌, Option, none, some, List, [], ◌∷◌, ◌++◌, map, if◌then◌else◌, ℤ, pos, pos_part, ◌*ℤ◌,
  max_ℤ, min_ℤ, floor_div,
}
use package.kh_optionbaz.Generator.Types.{Signal, Generator, DroppedGroup, ratio_or_one}

-- The legs of a structure after the risk calculator, or the symbol of the one that is refused.
pub data Sizing : Type 0 where
  blocked_at : ℕ → Sizing
  all_sized : List Signal → Sizing

abbrev pub with_leg : Signal → Sizing → Sizing
with_leg s (blocked_at symbol) = blocked_at symbol
with_leg s (all_sized legs) = all_sized (s ∷ legs)

-- `s.suggested_qty // max(int(s.metadata.get("leg_ratio", 1)), 1)`
unfoldable pub per_ratio : Signal → ℤ
unfolding floor_div max_ℤ
per_ratio s = floor_div s.sized.suggested_qty (pos_part (max_ℤ (ratio_or_one s.leg_ratio) (pos 1)))

-- The smallest of them.
abbrev pub base_from : ℤ → List Signal → ℤ
base_from least [] = least
base_from least (s ∷ legs) = base_from (min_ℤ least (per_ratio s)) legs

abbrev pub base_qty : List Signal → ℤ
base_qty [] = pos 0
base_qty (s ∷ legs) = base_from (per_ratio s) legs

abbrev pub scaled : ℤ → Signal → Signal
scaled base s = record s {
  sized = record s.sized { suggested_qty = base *ℤ ratio_or_one s.leg_ratio };
}

abbrev pub symbols_of : List Signal → List ℕ
symbols_of = map (λ s. s.symbol)

abbrev pub dropped_by : ℕ → List Signal → ℕ → ℕ → DroppedGroup
dropped_by group legs strategy symbol = record {
  leg_group_id = group;
  strategy = strategy;
  legs = symbols_of legs;
  blocked_by = symbol;
}

abbrev pub expected_legs : Option ℕ → ℕ → ℕ
expected_legs none n = n
expected_legs (some count) n = count

-- The legs of each structure, in the order of their first appearance: `groups`.
pub record LegGroup : Type 0 where
  pub group_id : ℕ
  pub first : Signal
  pub others : List Signal

abbrev pub add_leg : ℕ → Signal → List LegGroup → List LegGroup
add_leg group s [] = record { group_id = group; first = s; others = [] } ∷ []
add_leg group s (g ∷ gs) =
    let rest = add_leg group s gs in
    if g.group_id == group then record g { others = g.others ++ s ∷ [] } ∷ gs else g ∷ rest

abbrev pub group_in : Option ℕ → Signal → List LegGroup → List LegGroup
group_in none s gs = gs
group_in (some group) s gs = add_leg group s gs

abbrev pub groups_from : List Signal → List LegGroup → List LegGroup
groups_from [] gs = gs
groups_from (s ∷ ss) gs = groups_from ss (group_in s.leg_group_id s gs)

abbrev pub single_in : Option ℕ → Signal → List Signal → List Signal
single_in none s ss = s ∷ ss
single_in (some group) s ss = ss

abbrev pub singles_of : List Signal → List Signal
singles_of [] = []
singles_of (s ∷ ss) = single_in s.leg_group_id s (singles_of ss)

abbrev pub append_some : Option Signal → List Signal → List Signal
append_some none ss = ss
append_some (some s) ss = s ∷ ss

-- One turn of the loop over the legs; `rest` goes on with the next ones.
abbrev pub next_leg :
    Signal → Option Signal × Generator → (Generator → Sizing × Generator) → Sizing × Generator
next_leg s (none, g) rest = (blocked_at s.symbol, g)
next_leg s (some final, g) rest = let (sized, h) = rest g in (with_leg final sized, h)
