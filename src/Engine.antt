-- ===== src/Engine.antt =====
-- The engine of mvp/src/engine.h: a book, a scratch vector of trades and the trades of the last
-- placement.
use low_latency_hft_matching.Base.{
  ℕ, ◌+◌, ◌^◌, ◌<◌, ◌≡◌, List, [], Bool, Option, some, length, ◌>>=◌, refl,
}
use low_latency_hft_matching.Book.{OrderBook, empty_book}
use low_latency_hft_matching.Book.Types.{Side, Price, Quantity, Trade}
use low_latency_hft_matching.Book.Valid.{IsValid, outcome}
use low_latency_hft_matching.Book.Priority.{place_limit-Greedy}
use low_latency_hft_matching.Book

pub record Engine : Type 0 where
  pub book : OrderBook
  pub trades_scratch : List Trade
  pub last_trades : List Trade

unfoldable pub new_engine : ℕ → Engine
new_engine pool_capacity = record {
  book = empty_book pool_capacity;
  trades_scratch = [];
  last_trades = [];
}

-- `trades_scratch_.clear()`, the book's `place_limit`, and the copy into `last_trades_`.
unfoldable pub place_limit : Side → Price → Quantity → Engine → Option (ℕ × Engine)
place_limit side price qty e = do
  r ← Book.place_limit side price qty [] e.book
  some (r.0, record { book = r.2; trades_scratch = r.1; last_trades = r.1 })

unfoldable pub cancel : ℕ → Engine → Bool × Engine
cancel id e = let r = Book.cancel id e.book in (r.0, record e { book = r.1 })

-- `match()`.
unfoldable pub match_count : Engine → ℕ
match_count e = length e.last_trades

-- On a valid book a placement through the engine ends; afterwards `last_trades` holds exactly the
-- trades of this placement, whatever the scratch vector held before, and `match` counts them.
pub place_limit-last_trades :
    (side : Side) (price : Price) (qty : Quantity) (e : Engine)
    → e.book.next_id + 1 < 2 ^ 64
    → IsValid e.book
    → (e' : Engine) × (place_limit side price qty e ≡ some (e.book.next_id, e'))
      × (e'.last_trades ≡ (outcome side price qty e.book).trades)
      × (match_count e' ≡ length (outcome side price qty e.book).trades)
      × IsValid e'.book
unfolding place_limit match_count
place_limit-last_trades side price qty e h v =
    let (b', eq, v', _) = place_limit-Greedy side price qty [] e.book h v in
    let ts = (outcome side price qty e.book).trades in
    (record { book = b'; trades_scratch = ts; last_trades = ts }, rw eq, refl, refl, v')
