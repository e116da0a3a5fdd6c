-- ===== src/OrderBook/Client/Calls.antt =====
-- Any sequence of calls of `OrderBookClient.get_order_book` (option_signal_bot/data/order_book.py) on
-- one client, whose cache is empty at first.
use mathlib.Core.Option.{some-injective}
use kh_optionbaz.Prelude.{
  ℕ, ◌==◌, ◌≡◌, ◌⊎◌, ==_iff, refl, sym, arith, ap, ◌∙◌, inl, inr, Bool-cases, Option, none, some,
  List, [], ◌∷◌, ltb_ℤ, ℤ, ◌-ℤ◌, ◌<ℤ◌,
}
use kh_optionbaz.OrderBook.{OrderBook}
use kh_optionbaz.OrderBook.Client.{Cache, put_book, store_fetched, cached_or, get_order_book}

-- A call: the code, the times of its entry and of the end of its fetch, and what a fetch would give.
pub record Ask : Type 0 where
  pub ins_code : ℕ
  pub now : ℤ
  pub done : ℤ
  pub fetched : Option OrderBook

abbrev ask_on : ℤ → Ask → Cache → Option OrderBook × Cache
ask_on ttl a cache = get_order_book ttl a.ins_code a.now a.done a.fetched cache

-- The cache after some calls, the latest first.
abbrev pub after : ℤ → List Ask → Cache
after ttl [] = λ code. none
after ttl (a ∷ asks) = (ask_on ttl a (after ttl asks)).1

-- What a call answers after some calls.
abbrev pub answer : ℤ → List Ask → Ask → Option OrderBook
answer ttl asks a = (ask_on ttl a (after ttl asks)).0

-- One of the calls was for this code, fetched this book by the time `at`, and answered it.
abbrev pub WasFetched : ℤ → ℕ → ℤ → OrderBook → List Ask → Type 0
WasFetched ttl code at book [] = ⊥
WasFetched ttl code at book (a ∷ asks) =
    ((a.ins_code ≡ code)
      × (a.done ≡ at)
      × (a.fetched ≡ some book)
      × (answer ttl asks a ≡ some book))
    ⊎ WasFetched ttl code at book asks

-- A call leaves the cache as it is, or puts what it fetches there and answers it.
abbrev Leaves : Ask → Cache → Option OrderBook × Cache → Type 0
Leaves a cache r =
    (r.1 ≡ cache)
    ⊎ ((book : OrderBook) × (a.fetched ≡ some book)
        × (r ≡ (some book, put_book a.ins_code a.done book cache)))

store_fetched-Leaves :
    (a : Ask) (o : Option OrderBook) (cache : Cache)
    → a.fetched ≡ o
    → Leaves a cache (store_fetched a.ins_code a.done o cache)
store_fetched-Leaves a none cache e = inl refl
store_fetched-Leaves a (some book) cache e = inr (book, e, refl)

cached_or-Leaves :
    (ttl : ℤ) (a : Ask) (entry : Option (ℤ × OrderBook)) (cache : Cache)
    (fetch : Option OrderBook × Cache)
    → Leaves a cache fetch
    → Leaves a cache (cached_or ttl a.now entry cache fetch)
cached_or-Leaves ttl a none cache fetch l = l
cached_or-Leaves ttl a (some (at, book)) cache fetch l =
    elim (Bool-cases (ltb_ℤ (a.now -ℤ at) ttl)) [ inl b ↦ rw b (inl refl) | inr b ↦ rw b l ]

ask_on-Leaves : (ttl : ℤ) (a : Ask) (cache : Cache) → Leaves a cache (ask_on ttl a cache)
unfolding get_order_book
ask_on-Leaves ttl a cache =
    cached_or-Leaves ttl a (cache a.ins_code) cache _ (store_fetched-Leaves a a.fetched cache refl)

-- Each book in the cache was fetched, by the time that stands with it.
after-WasFetched :
    (ttl : ℤ) (asks : List Ask) (code : ℕ) (at : ℤ) (book : OrderBook)
    → after ttl asks code ≡ some (at, book)
    → WasFetched ttl code at book asks
after-WasFetched ttl [] code at book h = absurd (cc h)
after-WasFetched ttl (a ∷ asks) code at book h = elim (ask_on-Leaves ttl a (after ttl asks)) [
  | inl e ↦ inr (after-WasFetched ttl asks code at book (ap (λ (k : Cache). k code) (sym e) ∙ h))
  | inr (fresh, f, e) ↦
      let put : put_book a.ins_code a.done fresh (after ttl asks) code ≡ some (at, book) =
        ap (λ (r : Option OrderBook × Cache). r.1 code) (sym e) ∙ h in
      elim (Bool-cases (code == a.ins_code)) [
        | inl b ↦
            let same : (a.done, fresh) ≡ (at, book) = some-injective _ _ (rw b at put) in
            let same_book = ap (λ (p : ℤ × OrderBook). p.1) same in
            inl (
              sym ((==_iff code a.ins_code).0 b),
              ap (λ (p : ℤ × OrderBook). p.0) same,
              f ∙ ap some same_book,
              ap (λ (r : Option OrderBook × Cache). r.0) e ∙ ap some same_book,
            )
        | inr b ↦ inr (after-WasFetched ttl asks code at book (rw b at put))
      ]
]

cached_or-answers :
    (ttl now : ℤ) (entry : Option (ℤ × OrderBook)) (cache : Cache)
    (fetch : Option OrderBook × Cache) (book : OrderBook)
    → (cached_or ttl now entry cache fetch).0 ≡ some book
    → (fetch.0 ≡ some book) ⊎ ((at : ℤ) × (entry ≡ some (at, book)) × (now -ℤ at <ℤ ttl))
cached_or-answers ttl now none cache fetch book e = inl e
cached_or-answers ttl now (some (at, old)) cache fetch book e =
    elim (Bool-cases (ltb_ℤ (now -ℤ at) ttl)) [
      | inl b ↦ inr (at, ap (λ k. some (at, k)) (some-injective _ _ (rw b at e)), ground arith)
      | inr b ↦ inl (rw b at e)
    ]

fetch_answers :
    (a : Ask) (o : Option OrderBook) (cache : Cache) (book : OrderBook)
    → (store_fetched a.ins_code a.done o cache).0 ≡ some book
    → o ≡ some book
fetch_answers a none cache book e = e
fetch_answers a (some b) cache book e = e

-- After any calls on a new client, whatever they fetched and at whatever times: a book that a call
-- answers is the one that the call fetches, or an earlier call for the same code fetched it and
-- answered it, less than `ttl` before this call. (No fetch that failed makes a book younger.)
pub answer-WasFetched :
    (ttl : ℤ) (asks : List Ask) (a : Ask) (book : OrderBook)
    → answer ttl asks a ≡ some book
    → (a.fetched ≡ some book)
      ⊎ ((at : ℤ) × (a.now -ℤ at <ℤ ttl) × WasFetched ttl a.ins_code at book asks)
unfolding get_order_book
answer-WasFetched ttl asks a book e =
    let cache = after ttl asks in
    elim (cached_or-answers ttl a.now (cache a.ins_code) cache
      (store_fetched a.ins_code a.done a.fetched cache) book e) [
        | inl f ↦ inl (fetch_answers a a.fetched cache book f)
        | inr (at, kept, young) ↦ inr (at, young, after-WasFetched ttl asks a.ins_code at book kept)
      ]
