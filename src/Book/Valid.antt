-- ===== src/Book/Valid.antt =====
-- The invariant of the book, and what `place_limit` returns.
use low_latency_hft_matching.Base.{
  ℕ, ◌+◌, ◌^◌, ◌≤◌, ◌<◌, ◌≡◌, refl, ℤ, List, [], ◌∷◌, ◌++◌, none, some, length, arith, append_assoc,
  append-nil,
}
use low_latency_hft_matching.Book.{
  Matching, OrderBook, empty_book, side_of, set_side, opposite, next64, rest_order, place_limit,
}
use low_latency_hft_matching.Book.Types.{
  Side, buy, sell, OrderNode, Trade, BookSide, Price, Quantity, Index, PoolCount, erase,
}
use low_latency_hft_matching.Book.Greedy.{Outcome, fill}
use low_latency_hft_matching.Book.Matches.{erase_all, release_all}
use low_latency_hft_matching.Book.Sweep.{
  eligible, beyond, flat, swept, match_against-fill, flat-eligible, flat-swept,
}
use low_latency_hft_matching.Book.Sides.{
  IsSide, Ahead, Apart, IsSide-AllPriced, swept-IsSide, swept-Ahead,
}
use low_latency_hft_matching.Book.Tracks.{Tracks, Tracks-fill}

-- All resting orders: the bids, then the asks, each in priority order.
abbrev pub resting : OrderBook → List OrderNode
resting b = flat b.bids ++ flat b.asks

pub record IsValid (b : OrderBook) : Type 0 where
  pub bids : IsSide buy b.bids
  pub asks : IsSide sell b.asks
  pub apart : Apart b.bids b.asks
  pub tracks : Tracks b.index b.pool (resting b)
  pub fresh : (j : ℕ) → b.next_id ≤ j → b.index.at j ≡ none

pub empty_book-IsValid : (capacity : ℕ) → IsValid (empty_book capacity)
unfolding empty_book flat
empty_book-IsValid capacity = record {
  bids = tt;
  asks = tt;
  apart = tt;
  tracks = record {
    at = λ j. refl;
    count = refl;
    in_use = refl;
    bounded = omega arith;
    distinct = tt;
  };
  fresh = λ j h. refl;
}

pub side-IsSide : {b : OrderBook} (s : Side) → IsValid b → IsSide s (side_of s b)
side-IsSide buy v = v.bids
side-IsSide sell v = v.asks

-- The other reading of `Apart`, from the best ask.
unfoldable pub AskApart : BookSide → BookSide → Type 0
AskApart bids [] = Unit {0}
AskApart bids ((q, _) ∷ _) = Ahead buy q bids

pub Apart-ask : (bids asks : BookSide) → Apart bids asks → AskApart bids asks
unfolding AskApart
Apart-ask bids [] a = tt
Apart-ask [] ((q, _) ∷ _) a = tt
Apart-ask ((p, _) ∷ _) ((q, _) ∷ _) a = a

pub ask-Apart : (bids asks : BookSide) → AskApart bids asks → Apart bids asks
unfolding AskApart
ask-Apart [] asks a = tt
ask-Apart ((p, _) ∷ _) [] a = tt
ask-Apart ((p, _) ∷ _) ((q, _) ∷ _) a = a

pub erase_all-none :
    (j : ℕ) (ks : List ℕ) (m : Index) → m.at j ≡ none → (erase_all ks m).at j ≡ none
unfolding erase
erase_all-none j [] m h = h
erase_all-none j (k ∷ ks) m h = erase_all-none j ks (erase k m) (ground arith)

-- What the taker does to the queue it meets.
abbrev pub outcome : Side → Price → Quantity → OrderBook → Outcome
outcome side price qty b =
    fill b.next_id qty (eligible (opposite side) price (side_of (opposite side) b))

-- The book between matching and resting.
unfoldable pub matched : Side → Price → Quantity → OrderBook → OrderBook
matched side price qty b =
    let o = outcome side price qty b in
    set_side (opposite side) (swept (opposite side) b.next_id price qty (side_of (opposite side) b))
      (record b {
        index = erase_all o.done b.index;
        pool = release_all o.done b.pool;
        next_id = next64 b.next_id;
      })

pub place_limit_lem :
    (side : Side) (price : Price) (qty : Quantity) (trades : List Trade) (b : OrderBook)
    → IsValid b
    → let o = outcome side price qty b in
      place_limit side price qty trades b
      ≡ some (
        b.next_id,
        trades ++ o.trades,
        rest_order side b.next_id price o.left (matched side price qty b),
      )
unfolding place_limit matched
place_limit_lem side price qty trades b v =
    let opp = opposite side in
    let m : Matching = record { qty = qty; trades = trades; index = b.index; pool = b.pool } in
    rw (
      match_against-fill (length (side_of opp b) + 1) opp b.next_id price m (side_of opp b)
        (omega arith) (IsSide-AllPriced opp _ (side-IsSide opp v)))

swept-Apart :
    (taker : ℕ) (limit : Price) (q : ℤ) (bids asks : BookSide)
    → IsSide sell asks
    → Apart bids asks
    → Apart bids (swept sell taker limit q asks)
swept-Apart taker limit q [] asks w a = tt
swept-Apart taker limit q ((p, _) ∷ _) asks w a = swept-Ahead sell p taker limit q asks w a

swept-AskApart :
    (taker : ℕ) (limit : Price) (q : ℤ) (bids asks : BookSide)
    → IsSide buy bids
    → AskApart bids asks
    → AskApart (swept buy taker limit q bids) asks
unfolding AskApart
swept-AskApart taker limit q bids [] w a = tt
swept-AskApart taker limit q bids ((p, _) ∷ _) w a = swept-Ahead buy p taker limit q bids w a

swept-Tracks :
    (opp : Side) (taker : ℕ) (limit : Price) (q : ℤ) (m : Index) (p : PoolCount) (b : BookSide)
    (pre post : List OrderNode)
    → Tracks m p (pre ++ (flat b ++ post))
    → let done = (fill taker q (eligible opp limit b)).done in
      Tracks
        (erase_all done m)
        (release_all done p)
        (pre ++ (flat (swept opp taker limit q b) ++ post))
swept-Tracks opp taker limit q m p b pre post t =
    rw (flat-swept opp taker limit q b, append_assoc)
      (Tracks-fill taker q m p pre (eligible opp limit b) (flat (beyond opp limit b) ++ post)
        (rw (flat-eligible opp limit b, append_assoc) at t))

pub matched-IsValid :
    (side : Side) (price : Price) (qty : Quantity) (b : OrderBook)
    → b.next_id + 1 < 2 ^ 64
    → IsValid b
    → IsValid (matched side price qty b)
unfolding matched
matched-IsValid buy price qty b h v = record {
  bids = v.bids;
  asks = swept-IsSide sell b.next_id price qty b.asks v.asks;
  apart = swept-Apart b.next_id price qty b.bids b.asks v.asks v.apart;
  tracks = rw append-nil at (
      swept-Tracks sell b.next_id price qty b.index b.pool b.asks (flat b.bids) []
        (rw append-nil v.tracks));
  fresh = λ j k. erase_all-none j (outcome buy price qty b).done b.index (v.fresh j (omega arith));
}
matched-IsValid sell price qty b h v = record {
  bids = swept-IsSide buy b.next_id price qty b.bids v.bids;
  asks = v.asks;
  apart =
      ask-Apart _ b.asks
        (swept-AskApart b.next_id price qty b.bids b.asks v.bids (Apart-ask b.bids b.asks v.apart));
  tracks = swept-Tracks buy b.next_id price qty b.index b.pool b.bids [] (flat b.asks) v.tracks;
  fresh = λ j k. erase_all-none j (outcome sell price qty b).done b.index (v.fresh j (omega arith));
}
