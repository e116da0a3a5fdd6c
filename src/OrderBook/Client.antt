-- ===== src/OrderBook/Client.antt =====
-- `OrderBookClient` of option_signal_bot/data/order_book.py, and `try_get_order_book` of
-- option_signal_bot/data/quote_source.py. What the network and `from_tsetmc` give is an argument,
-- `none` for an exception. The clock of a call is read twice: on entry and after the fetch.
pub mod Calls
use mathlib.Core.Path.{subst}
use kh_optionbaz.Prelude.{
  sym, ℕ, ◌==◌, ◌≡◌, ==_refl, refl, arith, ap, ◌∙◌, true, false, Option, none, some, if◌then◌else◌,
  ltb_ℤ, ℤ, pos, ◌-ℤ◌, ◌<ℤ◌, ◌≤ℤ◌, max_ℤ,
}
use kh_optionbaz.OrderBook.{OrderBook}

-- `_cache`, by `ins_code`: when a book was fetched, and the book.
abbrev pub Cache : Type 0
Cache = ℕ → Option (ℤ × OrderBook)

abbrev pub put_book : ℕ → ℤ → OrderBook → Cache → Cache
put_book ins_code at book cache code = if code == ins_code then some (at, book) else cache code

abbrev age_at : ℤ → Option (ℤ × OrderBook) → Option ℤ
age_at now none = none
age_at now (some (at, book)) = some (max_ℤ (now -ℤ at) (pos 0))

-- `cache_age_seconds`
unfoldable pub cache_age_seconds : Cache → ℕ → ℤ → Option ℤ
cache_age_seconds cache ins_code now = age_at now (cache ins_code)

-- What a fetch leaves, and what the call then gives.
abbrev pub store_fetched : ℕ → ℤ → Option OrderBook → Cache → Option OrderBook × Cache
store_fetched ins_code done none cache = (none, cache)
store_fetched ins_code done (some book) cache = (some book, put_book ins_code done book cache)

abbrev pub cached_or :
    ℤ → ℤ → Option (ℤ × OrderBook) → Cache → Option OrderBook × Cache → Option OrderBook × Cache
cached_or ttl now none cache fetch = fetch
cached_or ttl now (some (at, book)) cache fetch =
    if ltb_ℤ (now -ℤ at) ttl then (some book, cache) else fetch

-- `get_order_book`; its exception is `none`, as `try_get_order_book` makes it.
unfoldable pub get_order_book : ℤ → ℕ → ℤ → ℤ → Option OrderBook → Cache → Option OrderBook × Cache
get_order_book ttl ins_code now done fetched cache =
    cached_or ttl now (cache ins_code) cache (store_fetched ins_code done fetched cache)

cached_or_put :
    (ttl : ℤ) (ins_code : ℕ) (done now : ℤ) (book : OrderBook) (cache : Cache)
    (fetch : Option OrderBook × Cache)
    → let after = put_book ins_code done book cache in
      cached_or ttl now (after ins_code) after fetch
      ≡ (if ltb_ℤ (now -ℤ done) ttl then (some book, after) else fetch)
cached_or_put ttl ins_code done now book cache fetch = rw (==_refl ins_code) refl

-- What a call leaves that looks at the network: the book that it fetches, with the time of the fetch;
-- where the fetch fails, the cache as it was.
abbrev pub IsLeft : ℕ → ℤ → Option OrderBook → Cache → Cache → Type 0
IsLeft ins_code done none before kept = kept ≡ before
IsLeft ins_code done (some book) before kept = kept ≡ put_book ins_code done book before

store_fetched-IsLeft :
    (ins_code : ℕ) (done : ℤ) (o : Option OrderBook) (cache : Cache)
    → ((store_fetched ins_code done o cache).0 ≡ o)
      × IsLeft ins_code done o cache (store_fetched ins_code done o cache).1
store_fetched-IsLeft ins_code done none cache = (refl, refl)
store_fetched-IsLeft ins_code done (some book) cache = (refl, refl)

-- Where the cache has no book of a code, a call fetches it, and the book is given again for as long
-- as it is younger than `ttl`, without a look at the network. After that a call answers what it
-- fetches, and where the fetch fails there is no book, not the stale one, whose time in the cache
-- stays what it was.
pub get_order_book_fresh :
    (ttl : ℤ) (ins_code : ℕ) (start done now later : ℤ) (book : OrderBook)
    (fetched : Option OrderBook) (cache : Cache)
    → cache ins_code ≡ none
    → let (first, after) = get_order_book ttl ins_code start done (some book) cache in
      let (answer, kept) = get_order_book ttl ins_code now later fetched after in
      ((first ≡ some book) × (after ≡ put_book ins_code done book cache))
      × (now -ℤ done <ℤ ttl → (answer ≡ some book) × (kept ≡ after))
      × (ttl ≤ℤ now -ℤ done → (answer ≡ fetched) × IsLeft ins_code later fetched after kept)
unfolding get_order_book
get_order_book_fresh ttl ins_code start done now later book fetched cache e =
    let after = put_book ins_code done book cache in
    let fetch = store_fetched ins_code later fetched after in
    let given = cached_or_put ttl ins_code done now book cache fetch in
    rw e (
      (refl, refl),
      λ h.
          let young : ltb_ℤ (now -ℤ done) ttl ≡ true = ground arith in
          let whole : cached_or ttl now (after ins_code) after fetch ≡ (some book, after) =
            given ∙ rw young refl in
          (
            ap (λ (r : Option OrderBook × Cache). r.0) whole,
            ap (λ (r : Option OrderBook × Cache). r.1) whole,
          ),
      λ h.
          let old : ltb_ℤ (now -ℤ done) ttl ≡ false = ground arith in
          let whole : cached_or ttl now (after ins_code) after fetch ≡ fetch =
            given ∙ rw old refl in
          subst
            (λ (r : Option OrderBook × Cache).
              (r.0 ≡ fetched) × IsLeft ins_code later fetched after r.1)
            (sym whole) (store_fetched-IsLeft ins_code later fetched after),
    )
