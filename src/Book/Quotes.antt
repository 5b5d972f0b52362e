-- ===== src/Book/Quotes.antt =====
-- What `best_bid`, `best_ask`, `qty_at` and `size` report on a valid book.
use low_latency_hft_matching.Book.Fifo.{level_at}
use low_latency_hft_matching.Book.Quantities.{total, sum_level-total}
use low_latency_hft_matching.Base.{
  ◌≤◌, ◌≡◌, refl, ◌≤ℤ◌, ◌<ℤ◌, ltb→lt, List, [], ◌∷◌, true, false, length, arith, inl, inr, ◌⊎◌,
  Option-cases,
}
use low_latency_hft_matching.Book.{OrderBook, best_bid, best_ask, size, qty_at, side_of}
use low_latency_hft_matching.Book.Types.{Side, buy, sell, OrderNode, BookSide, Price}
use low_latency_hft_matching.Book.Levels.{before, find}
use low_latency_hft_matching.Book.Sweep.{flat}
use low_latency_hft_matching.Book.Sides.{IsSide, Apart}
use low_latency_hft_matching.Book.Valid.{IsValid, resting}
use low_latency_hft_matching.Book.Priority.{All, All-append, All-mono, flat-behind, level-All}

-- The best key of a side, against every order of it.
head-best :
    (s : Side) (px : Price) (lvl : List OrderNode) (b : BookSide)
    → IsSide s ((px, lvl) ∷ b)
    → All (λ o. before s o.price px ≡ false) (flat ((px, lvl) ∷ b))
unfolding flat
head-best s px lvl b w =
    All-append _ lvl (flat b) (level-All (λ p. before s p px ≡ false) s px lvl w.1 (irrefl s px))
      (All-mono _ _ (flat b) (λ o h. asym s px o.price h) (flat-behind s px b w.3 w.2))
  where
    irrefl : (s : Side) (p : Price) → before s p p ≡ false
    irrefl buy p = ground arith
    irrefl sell p = ground arith

    asym : (s : Side) (p q : Price) → before s p q ≡ true → before s q p ≡ false
    asym buy p q h = ground arith
    asym sell p q h = ground arith

best_bid-max :
    (bids : BookSide) (b : OrderBook)
    → b.bids ≡ bids
    → IsSide buy bids
    → All (λ o. o.price ≤ℤ best_bid b) (flat bids)
unfolding best_bid
best_bid-max [] b e w = unfold flat in tt
best_bid-max ((px, lvl) ∷ rest) b e w =
    rw e
      (All-mono _ _ (flat ((px, lvl) ∷ rest)) (λ o h. ground arith) (head-best buy px lvl rest w))

best_ask-min :
    (asks : BookSide) (b : OrderBook)
    → b.asks ≡ asks
    → IsSide sell asks
    → All (λ o. best_ask b ≤ℤ o.price) (flat asks)
unfolding best_ask
best_ask-min [] b e w = unfold flat in tt
best_ask-min ((px, lvl) ∷ rest) b e w =
    rw e
      (All-mono _ _ (flat ((px, lvl) ∷ rest)) (λ o h. ground arith) (head-best sell px lvl rest w))

spread :
    (bids asks : BookSide) (b : OrderBook)
    → b.bids ≡ bids
    → b.asks ≡ asks
    → Apart bids asks
    → (b.bids ≡ []) ⊎ (b.asks ≡ []) ⊎ (best_bid b <ℤ best_ask b)
unfolding best_bid best_ask
spread [] asks b e f a = inl e
spread (x ∷ bids) [] b e f a = inr (inl f)
spread ((p, _) ∷ bids) ((q, _) ∷ asks) b e f a = inr (inr (rw (e, f) (ltb→lt _ _ a)))

-- On a valid book no bid is above `best_bid` and no ask below `best_ask`, and where both sides have
-- orders the book is not crossed.
pub quotes :
    (b : OrderBook)
    → IsValid b
    → All (λ o. o.price ≤ℤ best_bid b) (flat b.bids)
      × All (λ o. best_ask b ≤ℤ o.price) (flat b.asks)
      × ((b.bids ≡ []) ⊎ (b.asks ≡ []) ⊎ (best_bid b <ℤ best_ask b))
quotes b v = (
  best_bid-max b.bids b refl v.bids,
  best_ask-min b.asks b refl v.asks,
  spread b.bids b.asks b refl refl v.apart,
)

-- On a valid book `size` counts the resting orders, each has a slot of the pool, and there are no
-- more of them than the pool has slots.
pub size-resting :
    (b : OrderBook)
    → IsValid b
    → (size b ≡ length (resting b)) × (b.pool.in_use ≡ size b) × (size b ≤ b.pool.capacity)
unfolding size
size-resting b v = omega (arith, v.tracks.count, v.tracks.in_use, v.tracks.bounded)

-- `qty_at` is the total quantity of the queue at the price, and 0 where there is none.
pub qty_at-total :
    (side : Side) (price : Price) (b : OrderBook)
    → qty_at side price b ≡ total (level_at price (side_of side b))
unfolding qty_at
qty_at-total side price b = elim (Option-cases (find price (side_of side b))) [
  | inl none_there ↦ rw (none_there, qty_at) refl
  | inr (lvl, there) ↦ rw (there, qty_at) (sum_level-total lvl)
]
