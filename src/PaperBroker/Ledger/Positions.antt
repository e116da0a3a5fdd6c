-- ===== src/PaperBroker/Ledger/Positions.antt =====
-- The position table under the upsert and the delete of
-- option_signal_bot/storage/paper_trading_store.py.
use mathlib.Core.Path.{subst}
use mathlib.Core.Option.{some-injective}
use kh_optionbaz.Prelude.{
  ℕ, ◌≡◌, ◌≢◌, refl, sym, ap, arith, none, some, List, [], ◌∷◌, inl, inr, Bool-cases, ◌==◌, ==_iff,
  All, ℤ, ◌+ℤ◌, int_laws, parts_eq,
}
use kh_optionbaz.PaperStore.{PositionRow, find_position, put_position, without_position}
use kh_optionbaz.PaperBroker.Ledger.{basis_of, basis_sum, IsUnique}

-- A row that is found has the symbol that was asked for, and what all rows have.
pub find-symbol :
    (s : ℕ) (ps : List PositionRow) {p : PositionRow} → find_position s ps ≡ some p → p.symbol ≡ s
find-symbol s [] e = cc
find-symbol s (x ∷ xs) {p} e = elim (Bool-cases (x.symbol == s)) [
  | inl b ↦ rw (← some-injective x p (rw b at e)) ((==_iff _ _).0 b)
  | inr b ↦ find-symbol s xs (rw b at e)
]

pub find-All :
    (P : PositionRow → Type 0) (s : ℕ) (ps : List PositionRow) {p : PositionRow}
    → All P ps
    → find_position s ps ≡ some p
    → P p
find-All P s [] h e = cc
find-All P s (x ∷ xs) {p} h e = elim (Bool-cases (x.symbol == s)) [
  | inl b ↦ subst P (some-injective _ _ (rw b at e)) h.0
  | inr b ↦ find-All P s xs h.1 (rw b at e)
]

module _ (r : PositionRow) where
  abbrev kept : PositionRow → PositionRow
  kept p = record r { opened_at = p.opened_at }

  pub find-put_position :
      (s : ℕ) (ps : List PositionRow)
      → find_position s ps ≡ none
      → s ≢ r.symbol
      → find_position s (put_position r ps) ≡ none
  find-put_position s [] e h = ground arith
  find-put_position s (x ∷ xs) e h = ground (arith, find-put_position s xs)

  pub put_position-IsUnique : (ps : List PositionRow) → IsUnique ps → IsUnique (put_position r ps)
  put_position-IsUnique [] u = (refl, tt)
  put_position-IsUnique (x ∷ xs) u =
      ground (arith, put_position-IsUnique xs u.1, find-put_position x.symbol xs)

  pub All-put_position :
      (P : PositionRow → Type 0) (ps : List PositionRow)
      → ((opened : ℕ) → P (record r { opened_at = opened }))
      → All P ps
      → All P (put_position r ps)
  All-put_position P [] h k = (h r.opened_at, tt)
  All-put_position P (x ∷ xs) h k = elim (Bool-cases (x.symbol == r.symbol)) [
    | inl b ↦ rw b (h x.opened_at, k.1)
    | inr b ↦ rw b (k.0, All-put_position P xs h k.1)
  ]

  module _ (size : ℕ → ℤ) where
    pub basis-put_new :
        (ps : List PositionRow)
        → find_position r.symbol ps ≡ none
        → basis_sum size (put_position r ps) ≡ basis_sum size ps +ℤ basis_of size r
    basis-put_new [] e = omega int_laws
    basis-put_new (x ∷ xs) e = elim (Bool-cases (x.symbol == r.symbol)) [
      | inl b ↦ cc (rw b at e)
      | inr b ↦ rw b (rw (basis-put_new xs (rw b at e)) (omega int_laws))
    ]

    pub basis-put_old :
        (ps : List PositionRow) (p : PositionRow)
        → find_position r.symbol ps ≡ some p
        → basis_sum size (put_position r ps) +ℤ basis_of size p
          ≡ basis_sum size ps +ℤ basis_of size r
    basis-put_old [] p e = cc
    basis-put_old (x ∷ xs) p e = elim (Bool-cases (x.symbol == r.symbol)) [
      | inl b ↦ rw (b, ap (basis_of size) (some-injective x p (rw b at e))) (omega int_laws)
      | inr b ↦ rw b (omega (int_laws, parts_eq (basis-put_old xs p (rw b at e))))
    ]

pub without-absent :
    (s : ℕ) (ps : List PositionRow) → find_position s ps ≡ none → without_position s ps ≡ ps
without-absent s [] e = refl
without-absent s (x ∷ xs) e = elim (Bool-cases (x.symbol == s)) [
  | inl b ↦ cc (rw b at e)
  | inr b ↦ rw b (ap (λ l. x ∷ l) (without-absent s xs (rw b at e)))
]

pub basis-without :
    (size : ℕ → ℤ) (s : ℕ) (ps : List PositionRow) (p : PositionRow)
    → IsUnique ps
    → find_position s ps ≡ some p
    → basis_sum size (without_position s ps) +ℤ basis_of size p ≡ basis_sum size ps
basis-without size s [] p u e = cc
basis-without size s (x ∷ xs) p u e = elim (Bool-cases (x.symbol == s)) [
  | inl b ↦
      rw
        (
          b,
          without-absent s xs (rw (sym ((==_iff _ _).0 b)) u.0),
          ap (basis_of size) (some-injective x p (rw b at e)),
        )
        (omega int_laws)
  | inr b ↦ rw b (omega (int_laws, parts_eq (basis-without size s xs p u.1 (rw b at e))))
]

pub All-without :
    (P : PositionRow → Type 0) (s : ℕ) (ps : List PositionRow)
    → All P ps
    → All P (without_position s ps)
All-without P s [] h = tt
All-without P s (x ∷ xs) h = elim (Bool-cases (x.symbol == s)) [
  | inl b ↦ rw b (All-without P s xs h.1)
  | inr b ↦ rw b (h.0, All-without P s xs h.1)
]

find-without :
    (k s : ℕ) (ps : List PositionRow)
    → find_position k ps ≡ none
    → find_position k (without_position s ps) ≡ none
find-without k s [] e = refl
find-without k s (x ∷ xs) e = ground (arith, find-without k s xs)

pub without-IsUnique :
    (s : ℕ) (ps : List PositionRow) → IsUnique ps → IsUnique (without_position s ps)
without-IsUnique s [] u = tt
without-IsUnique s (x ∷ xs) u = elim (Bool-cases (x.symbol == s)) [
  | inl b ↦ rw b (without-IsUnique s xs u.1)
  | inr b ↦ rw b (find-without x.symbol s xs u.0, without-IsUnique s xs u.1)
]
