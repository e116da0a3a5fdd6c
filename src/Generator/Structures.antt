-- ===== src/Generator/Structures.antt =====
-- A structure of several legs (`_process_leg_group` of option_signal_bot/signals/signal_generator.py) is
-- emitted whole or not at all.
use native.Mathlib.Nat.{div-mul-le_self}
use mathlib.Core.Path.{subst}
use kh_optionbaz.Prelude.{
  ℕ, ◌≤◌, ◌/◌, ◌==◌, ◌≡◌, ◌⊎◌, refl, ap, sym, arith, inl, inr, Bool, true, false, ==_iff,
  Bool-cases, Option, none, some, List, [], ◌∷◌, map, All, length, ℤ, pos, negsuc, pos_part, ◌≤ℤ◌,
  ◌<ℤ◌, ◌*ℤ◌, leb_ℤ, leb_ℤ→<ℤ, max_ℤ, max_ℤ_bounds, min_ℤ, min_ℤ_bounds, floor_div, *ℤ_mono,
  *ℤ_parts, parts_eq,
}
use kh_optionbaz.Generator.{
  Signal, Generator, Settings, Part, Sizing, blocked_at, all_sized, with_leg, next_leg, per_ratio,
  base_from, base_qty, scaled, ratio_or_one, LegGroup, expected_legs, size_legs, emit_group,
  after_sizing, process_leg_group, post_process, is_duplicate_key, group_dedupe_key,
}
use kh_optionbaz.Generator.Passed.{IsPassed, post_process-IsPassed}

positive_part : (m : ℤ) → pos 1 ≤ℤ m → m ≡ pos (pos_part m)
positive_part (pos n) h = refl
positive_part (negsuc n) h = absurd (omega arith)

floor_div_le :
    (base q : ℤ) (n : ℕ) → 1 ≤ n → pos 0 <ℤ base → base ≤ℤ floor_div q n → base *ℤ pos n ≤ℤ q
unfolding floor_div
floor_div_le base (pos a) n h p k = omega (
  arith,
  *ℤ_mono base (pos (a / n)) (pos n) k (omega arith),
  *ℤ_parts (pos (a / n)) (pos n),
  div-mul-le_self a n,
)
floor_div_le base (negsuc a) n h p k = absurd (omega arith)

per_ratio_le :
    (base : ℤ) (s : Signal)
    → pos 0 <ℤ base
    → base ≤ℤ per_ratio s
    → base *ℤ max_ℤ (ratio_or_one s.leg_ratio) (pos 1) ≤ℤ s.sized.suggested_qty
unfolding per_ratio
per_ratio_le base s p k =
    let m = max_ℤ (ratio_or_one s.leg_ratio) (pos 1) in
    let least = max_ℤ_bounds (ratio_or_one s.leg_ratio) (pos 1) in
    let e = positive_part m least.1 in
    let bound =
      floor_div_le base s.sized.suggested_qty (pos_part m) (omega (arith, parts_eq e, least)) p k in
    subst (λ k. base *ℤ k ≤ℤ s.sized.suggested_qty) (sym e) bound

base_from_least :
    (least : ℤ) (legs : List Signal)
    → (base_from least legs ≤ℤ least) × All (λ s. base_from least legs ≤ℤ per_ratio s) legs
base_from_least least [] = (omega arith, tt)
base_from_least least (s ∷ legs) =
    let (a, b) = base_from_least (min_ℤ least (per_ratio s)) legs in
    let bounds = min_ℤ_bounds least (per_ratio s) in
    (omega (arith, a, bounds), (omega (arith, a, bounds), b))

-- Two lists, element by element.
abbrev pub AllPairs : (Signal → Signal → Type 0) → List Signal → List Signal → Type 0
AllPairs P [] [] = Unit
AllPairs P (s ∷ ss) (u ∷ us) = P s u × AllPairs P ss us
AllPairs P _ _ = ⊥

abbrev sized_of : Sizing → List Signal
sized_of (blocked_at symbol) = []
sized_of (all_sized legs) = legs

-- As many legs as the structure says that it has, where it says it.
abbrev pub IsComplete : Option ℕ → ℕ → Type 0
IsComplete none found = Unit
IsComplete (some count) found = found ≡ count

expected_legs-IsComplete :
    (count : Option ℕ) (found : ℕ)
    → (found == expected_legs count found) ≡ true
    → IsComplete count found
expected_legs-IsComplete none found b = tt
expected_legs-IsComplete (some count) found b = (==_iff found count).0 b

module _ (divide : ℤ → ℤ → ℤ) (round_to : ℕ → ℤ → ℤ) (text_before : Part → Part → Bool)
    (settings : Settings) where
  abbrev Passed : Signal → Signal → Type 0
  Passed = IsPassed divide round_to settings

  with_leg-Passed :
      (s final : Signal) (legs : List Signal) (z : Sizing) (out : List Signal)
      → Passed s final
      → ((us : List Signal) → z ≡ all_sized us → AllPairs Passed legs us)
      → with_leg final z ≡ all_sized out
      → AllPairs Passed (s ∷ legs) out
  with_leg-Passed s final legs (blocked_at symbol) out p h e = absurd (cc e)
  with_leg-Passed s final legs (all_sized us) out p h e =
      subst (AllPairs Passed (s ∷ legs)) (ap sized_of e) (p, h us refl)

  next_leg-Passed :
      (s : Signal) (legs : List Signal) (r : Option Signal × Generator)
      (rest : Generator → Sizing × Generator) (out : List Signal)
      → ((final : Signal) (k : Generator) → r ≡ (some final, k) → Passed s final)
      → ((k : Generator) (us : List Signal) → (rest k).0 ≡ all_sized us → AllPairs Passed legs us)
      → (next_leg s r rest).0 ≡ all_sized out
      → AllPairs Passed (s ∷ legs) out
  next_leg-Passed s legs (none, k) rest out p h e = absurd (cc e)
  next_leg-Passed s legs (some final, k) rest out p h e =
      with_leg-Passed s final legs (rest k).0 out (p final k refl) (h k) e

  size_legs-Passed :
      (legs : List Signal) (g : Generator) (out : List Signal)
      → (size_legs divide round_to text_before settings legs g).0 ≡ all_sized out
      → AllPairs Passed legs out
  unfolding size_legs
  size_legs-Passed [] g out e = subst (AllPairs Passed []) (ap sized_of e) tt
  size_legs-Passed (s ∷ legs) g out e =
      next_leg-Passed s legs (post_process divide round_to settings false s g)
        (size_legs divide round_to text_before settings legs) out
        (λ final k r. post_process-IsPassed divide round_to settings false s final g k r)
        (λ k us r. size_legs-Passed legs k us r) e

  -- A leg and what is emitted for it: the signal that has passed the checks, with the quantity of the
  -- structure, which never exceeds the one that passed.
  pub record IsLeg (base : ℤ) (leg out : Signal) : Type 0 where
    pub checked : Signal
    pub passed : IsPassed divide round_to settings leg checked
    pub out_is : out ≡ scaled base checked
    pub within :
        base *ℤ max_ℤ (ratio_or_one checked.leg_ratio) (pos 1) ≤ℤ checked.sized.suggested_qty

  abbrev pub Whole : List Signal → List Signal → Type 0
  Whole legs out = (out ≡ []) ⊎ ((base : ℤ) × (pos 0 <ℤ base) × AllPairs (IsLeg base) legs out)

  -- What is emitted for a structure: nothing, or each of its legs, of which there are as many as its
  -- first leg says.
  abbrev pub WholeGroup : LegGroup → List Signal → Type 0
  WholeGroup group out =
      (out ≡ [])
      ⊎ (IsComplete group.first.leg_count (length (group.first ∷ group.others))
          × ((base : ℤ) × (pos 0 <ℤ base) × AllPairs (IsLeg base) (group.first ∷ group.others) out))

  completed :
      (group : LegGroup) (out : List Signal)
      → IsComplete group.first.leg_count (length (group.first ∷ group.others))
      → Whole (group.first ∷ group.others) out
      → WholeGroup group out
  completed group out k (inl e) = inl e
  completed group out k (inr w) = inr (k, w)

  legs_within :
      (base : ℤ) (legs us : List Signal)
      → pos 0 <ℤ base
      → AllPairs Passed legs us
      → All (λ u. base ≤ℤ per_ratio u) us
      → AllPairs (IsLeg base) legs (map (scaled base) us)
  legs_within base [] [] p a w = tt
  legs_within base [] (u ∷ us) p a w = absurd a
  legs_within base (s ∷ legs) [] p a w = absurd a
  legs_within base (s ∷ legs) (u ∷ us) p a w = (
    record { checked = u; passed = a.0; out_is = refl; within = per_ratio_le base u p w.0 },
    legs_within base legs us p a.1 w.1,
  )

  emit_group-Whole :
      (strategy : ℕ) (legs us : List Signal) (g : Generator)
      → AllPairs Passed legs us
      → Whole legs (emit_group divide round_to text_before settings strategy us g).0
  emit_group-Whole strategy legs [] g a = inl refl
  emit_group-Whole strategy legs (u ∷ us) g a =
      let base = base_qty (u ∷ us) in
      let key =
        group_dedupe_key divide round_to text_before settings strategy
          (map (scaled base) (u ∷ us)) in
      let again = is_duplicate_key settings.config g key u.created_at.stamp in
      elim (Bool-cases (leb_ℤ base (pos 0))) [
        | inl b ↦ inl (rw b refl)
        | inr b ↦ elim (Bool-cases again) [
          | inl d ↦ inl (rw (b, d) refl)
          | inr d ↦
              rw (b, d)
                (inr (
                  base,
                  leb_ℤ→<ℤ base (pos 0) b,
                  legs_within base legs (u ∷ us) (leb_ℤ→<ℤ base (pos 0) b) a
                      (base_from_least (per_ratio u) us),
                ))
        ]
      ]

  after_sizing-Whole :
      (group : ℕ) (legs : List Signal) (strategy : ℕ) (z : Sizing) (g : Generator)
      → ((us : List Signal) → z ≡ all_sized us → AllPairs Passed legs us)
      → Whole legs (after_sizing divide round_to text_before settings group legs strategy (z, g)).0
  after_sizing-Whole group legs strategy (blocked_at symbol) g h = inl refl
  after_sizing-Whole group legs strategy (all_sized us) g h =
      emit_group-Whole strategy legs us g (h us refl)

  -- A structure of several legs is emitted whole or not at all. Where it is emitted, it has as many
  -- legs as its first leg says (where it says it); each leg has the
  -- confidence that is asked for, a size that the risk calculator allows, and, where the screening is
  -- on, the verdict tradable at that size; and all quantities are the same positive number times the
  -- ratio of the leg, where that number times the ratio (at least 1) is at most the allowed size.
  pub process_leg_group-Whole :
      (group : LegGroup) (g : Generator)
      → WholeGroup group (process_leg_group divide round_to text_before settings group g).0
  unfolding process_leg_group
  process_leg_group-Whole group g =
      let legs = group.first ∷ group.others in
      elim (Bool-cases (length legs == expected_legs group.first.leg_count (length legs))) [
        | inr b ↦ inl (rw b refl)
        | inl b ↦ rw b (
            completed group _ (expected_legs-IsComplete group.first.leg_count (length legs) b) (
              after_sizing-Whole group.group_id legs group.first.strategy_name
                (size_legs divide round_to text_before settings legs g).0
                (size_legs divide round_to text_before settings legs g).1
                (λ us e. size_legs-Passed legs g us e)))
      ]
