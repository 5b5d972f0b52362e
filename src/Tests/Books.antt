-- ===== src/Tests/Books.antt =====
-- Runs of the order book, after mvp/test/test_book.cpp.
use low_latency_hft_matching.Book.RoundTrip.{cancel-place_limit}
use low_latency_hft_matching.Book.Quotes.{quotes, qty_at-total}
use low_latency_hft_matching.Book.Fifo.{level_at, place_limit-back}
use low_latency_hft_matching.Book.Quantities.{traded, total, place_limit-conserves}
use low_latency_hft_matching.Book.Session.{Call, run, run-empty_book-IsValid}
use low_latency_hft_matching.Book.Cancelling.{cancel_lem}
use low_latency_hft_matching.Book.Liveness.{place_limit-min}
use low_latency_hft_matching.Book.Tracks.{locate}
use low_latency_hft_matching.Base.{
  ℕ, ◌≡◌, refl, pos, ◌+ℤ◌, ◌-ℤ◌, ◌<ℤ◌, ◌≤ℤ◌, min_ℤ, List, [], ◌∷◌, ◌++◌, true, false, none, some,
  arith, ◌⊎◌, eqb_ℤ, if◌then◌else◌,
}
use low_latency_hft_matching.Book.Types.{
  Side, buy, sell, Price, OrderNode, Trade, Ref, acquire, release, erase, insert,
}
use low_latency_hft_matching.Book.{
  OrderBook, empty_book, fill_head, match_level, match_against, rest_order, place_limit, cancel_at,
  cancel, best_bid, best_ask, qty_at,
}
use low_latency_hft_matching.Book.Levels.{find, set_level, level_push_back, level_unlink, push_at}
use low_latency_hft_matching.Book.Valid.{IsValid, resting, matched, empty_book-IsValid}
use low_latency_hft_matching.Book.Resting.{after_place, after_place-IsValid}
use low_latency_hft_matching.Book.Greedy.{fill}
use low_latency_hft_matching.Book.Sweep.{flat, eligible, beyond, swept}
use low_latency_hft_matching.Book.Priority.{All, place_limit-Greedy}
use low_latency_hft_matching.Book.Ranking.{IsBestFirst, place_limit-ranked}

-- Asks of 5 and 4 at 100, in this order, and of 9 at 101; a bid of 2 at 98.
abbrev two_asks : OrderBook
two_asks = after_place sell (pos 100) (pos 4) (after_place sell (pos 100) (pos 5) (empty_book 8))

abbrev pub stocked : OrderBook
stocked = after_place buy (pos 98) (pos 2) (after_place sell (pos 101) (pos 9) two_asks)

pub stocked-IsValid : IsValid stocked
unfolding empty_book rest_order push_at insert find set_level level_push_back erase release acquire
    fill eligible beyond flat swept match_level match_against fill_head matched min_ℤ ◌-ℤ◌ ◌+ℤ◌
stocked-IsValid = after_place-IsValid buy (pos 98) (pos 2) _ (omega arith) (
    after_place-IsValid sell (pos 101) (pos 9) _ (omega arith) (
      after_place-IsValid sell (pos 100) (pos 4) _ (omega arith) (
        after_place-IsValid sell (pos 100) (pos 5) (empty_book 8) (omega arith)
          (empty_book-IsValid 8))))

abbrev order : ℕ → Side → ℕ → ℕ → ℕ → OrderNode
order id side price qty ts = record {
  id = id;
  side = side;
  price = pos price;
  qty = pos qty;
  ts = ts;
}

abbrev deal : ℕ → ℕ → ℕ → ℕ → Trade
deal taker maker price qty = record {
  taker_id = taker;
  maker_id = maker;
  price = pos price;
  qty = pos qty;
}

-- A buyer of 7 at 100 takes the older ask whole and 2 of the younger one.
place_limit-Greedy_example :
    (b' : OrderBook) × (place_limit buy (pos 100) (pos 7) [] stocked
      ≡ some (5, deal 5 1 100 5 ∷ deal 5 2 100 2 ∷ [], b'))
    × IsValid b'
    × (flat b'.asks ≡ order 2 sell 100 2 2 ∷ order 3 sell 101 9 3 ∷ [])
unfolding empty_book rest_order push_at insert find set_level level_push_back erase release acquire
    fill eligible beyond flat swept match_level match_against fill_head matched min_ℤ ◌-ℤ◌ ◌+ℤ◌
    level_unlink cancel cancel_at
place_limit-Greedy_example =
    place_limit-Greedy buy (pos 100) (pos 7) [] stocked (omega arith) stocked-IsValid

-- Within the limit are the two asks at 100; the third is not.
place_limit-ranked_example :
    IsBestFirst buy (order 1 sell 100 5 1 ∷ order 2 sell 100 4 2 ∷ order 3 sell 101 9 3 ∷ [])
    × (b' : OrderBook) × (place_limit buy (pos 100) (pos 7) [] stocked
        ≡ some (5, deal 5 1 100 5 ∷ deal 5 2 100 2 ∷ [], b'))
    × (flat b'.asks ≡ order 2 sell 100 2 2 ∷ order 3 sell 101 9 3 ∷ [])
unfolding empty_book rest_order push_at insert find set_level level_push_back erase release acquire
    fill eligible beyond flat swept match_level match_against fill_head matched min_ℤ ◌-ℤ◌ ◌+ℤ◌
    level_unlink cancel cancel_at
place_limit-ranked_example =
    place_limit-ranked buy (pos 100) (pos 7) stocked (omega arith) stocked-IsValid

-- The middle of the queue at 100 goes.
cancel_lem_example :
    ((locate 2 (resting stocked) ≡ none) × (cancel 2 stocked ≡ (false, stocked)))
    ⊎ (((r : Ref) × (locate 2 (resting stocked) ≡ some r))
        × ((cancel 2 stocked).0 ≡ true)
        × (resting (cancel 2 stocked).1
            ≡ order 4 buy 98 2 4 ∷ order 1 sell 100 5 1 ∷ order 3 sell 101 9 3 ∷ [])
        × IsValid (cancel 2 stocked).1
        × (locate 2 (resting (cancel 2 stocked).1) ≡ none))
unfolding empty_book rest_order push_at insert find set_level level_push_back erase release acquire
    fill eligible beyond flat swept match_level match_against fill_head matched min_ℤ ◌-ℤ◌ ◌+ℤ◌
    level_unlink cancel cancel_at
cancel_lem_example = cancel_lem 2 stocked stocked-IsValid

run-empty_book-IsValid_example :
    (b : OrderBook) × (run
        (empty_book 4)
        (Call.places sell (pos 10) (pos 5) ∷ Call.places buy (pos 11) (pos 8) ∷ Call.cancels 2 ∷ [])
      ≡ some b)
    × IsValid b
run-empty_book-IsValid_example = run-empty_book-IsValid 4 _ (omega arith)

place_limit-conserves_example :
    (trades : List Trade) × (b' : OrderBook) × (place_limit buy (pos 100) (pos 12) [] stocked
      ≡ some (5, trades, b'))
    × (traded trades +ℤ pos 3 ≡ pos 12)
    × (traded trades +ℤ total (flat b'.asks) ≡ pos 18)
unfolding empty_book rest_order push_at insert find set_level level_push_back erase release acquire
    fill eligible beyond flat swept match_level match_against fill_head matched min_ℤ ◌-ℤ◌ ◌+ℤ◌
    level_unlink cancel cancel_at
place_limit-conserves_example =
    place_limit-conserves buy (pos 100) (pos 12) stocked (omega arith) stocked-IsValid

-- The 3 that are left of 12 make the one queue at 100 among the bids.
place_limit-back_example :
    (b' : OrderBook) × (ts : List Trade) × (place_limit buy (pos 100) (pos 12) [] stocked
      ≡ some (5, ts, b'))
    × (((true ≡ true)
          × ((r : Price)
              → level_at r b'.bids ≡ (
                  if eqb_ℤ (pos 100) r
                  then level_at r stocked.bids ++ order 5 buy 100 3 5 ∷ []
                  else level_at r stocked.bids)))
        ⊎ ((true ≡ false) × (b'.bids ≡ stocked.bids)))
unfolding empty_book rest_order push_at insert find set_level level_push_back erase release acquire
    fill eligible beyond flat swept match_level match_against fill_head matched min_ℤ ◌-ℤ◌ ◌+ℤ◌
    level_unlink cancel cancel_at
place_limit-back_example = place_limit-back buy (pos 100) (pos 12) [] stocked stocked-IsValid

quotes_example :
    All (λ o. o.price ≤ℤ pos 98) (flat stocked.bids)
    × All (λ o. pos 100 ≤ℤ o.price) (flat stocked.asks)
    × ((stocked.bids ≡ []) ⊎ (stocked.asks ≡ []) ⊎ (pos 98 <ℤ pos 100))
unfolding empty_book rest_order push_at insert find set_level level_push_back erase release acquire
    fill eligible beyond flat swept match_level match_against fill_head matched min_ℤ ◌-ℤ◌ ◌+ℤ◌
    level_unlink cancel cancel_at best_bid best_ask
quotes_example = quotes stocked stocked-IsValid

cancel-place_limit_example :
    (b' : OrderBook) × (place_limit buy (pos 98) (pos 6) [] stocked ≡ some (5, [], b'))
    × ((cancel 5 b').0 ≡ true)
    × (resting (cancel 5 b').1 ≡ resting stocked)
    × ((cancel 5 (cancel 5 b').1).0 ≡ false)
unfolding empty_book rest_order push_at insert find set_level level_push_back erase release acquire
    fill eligible beyond flat swept match_level match_against fill_head matched min_ℤ ◌-ℤ◌ ◌+ℤ◌
    level_unlink cancel cancel_at
cancel-place_limit_example =
    cancel-place_limit buy (pos 98) (pos 6) stocked (omega arith) stocked-IsValid refl (omega arith)
      (omega arith)

qty_at-total_example : qty_at sell (pos 100) stocked ≡ pos 9
unfolding empty_book rest_order push_at insert find set_level level_push_back erase release acquire
    fill eligible beyond flat swept match_level match_against fill_head matched min_ℤ ◌-ℤ◌ ◌+ℤ◌
qty_at-total_example = qty_at-total sell (pos 100) stocked

place_limit-min_example :
    (trades : List Trade) × (b' : OrderBook) × (place_limit buy (pos 100) (pos 12) [] stocked
      ≡ some (5, trades, b'))
    × (traded trades ≡ pos 9)
unfolding empty_book rest_order push_at insert find set_level level_push_back erase release acquire
    fill eligible beyond flat swept match_level match_against fill_head matched min_ℤ ◌-ℤ◌ ◌+ℤ◌
place_limit-min_example =
    place_limit-min buy (pos 100) (pos 12) stocked (omega arith) stocked-IsValid (omega arith)
