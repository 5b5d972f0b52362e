-- ===== src/Book.antt =====
-- The order book of mvp/src/order_book.{h,cpp}. `match_against` and its inner loop run on fuel, and
-- return `none` when it runs out.
pub mod Types
pub mod Levels
pub mod Greedy
pub mod Matches
pub mod Sweep
pub mod Sides
pub mod Unlinking
pub mod Locating
pub mod Tracks
pub mod Valid
pub mod Resting
pub mod Cancelling
pub mod Priority
pub mod Quantities
pub mod Leftover
pub mod Liveness
pub mod Ranking
pub mod Fifo
pub mod Quotes
pub mod Session
pub mod RoundTrip
use low_latency_hft_matching.Base.{
  ℕ, zero, suc, ◌+◌, ◌-◌, ◌^◌, ◌%◌, ℤ, pos, ◌+ℤ◌, ◌-ℤ◌, min_ℤ, is_pos, eqb_ℤ, List, [], ◌∷◌, ◌++◌,
  Bool, true, false, Option, none, some, length, is_empty, ltb, if◌then◌else◌, ◌>>=◌,
}
use Types.{
  Side, buy, sell, Price, Quantity, OrderNode, Trade, Level, BookSide, Ref, Index, erase, insert,
  PoolCount, acquire, release,
}
use Levels.{cross, find, erase_level, set_level, level_unlink, push_at}

-- What the loops of `match_against` update: `qty` and `trades` by reference, and two members.
pub record Matching : Type 0 where
  pub qty : Quantity
  pub trades : List Trade
  pub index : Index
  pub pool : PoolCount

-- The inner loop's body, for the level's head `maker` and the nodes behind it.
unfoldable pub fill_head : ℕ → Price → Matching → OrderNode → Level → Matching × Level
fill_head taker_id level_px m maker behind =
    let fill = min_ℤ m.qty maker.qty in
    let trade : Trade = record {
      taker_id = taker_id;
      maker_id = maker.id;
      price = level_px;
      qty = fill;
    } in
    let m' : Matching = record m { qty = m.qty -ℤ fill; trades = m.trades ++ trade ∷ [] } in
    if eqb_ℤ (maker.qty -ℤ fill) (pos 0)
    then (record m' { index = erase maker.id m.index; pool = release m.pool }, behind)
    else (m', record maker { qty = maker.qty -ℤ fill } ∷ behind)

-- `while (qty > 0 && !lvl.empty())`
unfoldable pub match_level : ℕ → ℕ → Price → Matching → Level → Option (Matching × Level)
match_level zero taker_id level_px m lvl = none
match_level (suc fuel) taker_id level_px m [] = some (m, [])
match_level (suc fuel) taker_id level_px m (maker ∷ behind) =
    let next = fill_head taker_id level_px m maker behind in
    let again = match_level fuel taker_id level_px next.0 next.1 in
    if is_pos m.qty then again else some (m, maker ∷ behind)

-- `while (qty > 0 && !opp.empty())`, with `opp` the side of the book that the taker meets.
unfoldable pub match_against :
    ℕ → Side → ℕ → Price → Matching → BookSide → Option (Matching × BookSide)
match_against zero opp taker_id limit m levels = none
match_against (suc fuel) opp taker_id limit m [] = some (m, [])
match_against (suc fuel) opp taker_id limit m ((level_px, lvl) ∷ rest) =
    let again : Option (Matching × BookSide) = (do
      r ← match_level (length lvl + 1) taker_id level_px m lvl
      match_against fuel opp taker_id limit r.0
          (if is_empty r.1 then rest else (level_px, r.1) ∷ rest)) in
    if is_pos m.qty
    then (if cross opp level_px limit then again else some (m, (level_px, lvl) ∷ rest))
    else some (m, (level_px, lvl) ∷ rest)

pub record OrderBook : Type 0 where
  pub bids : BookSide
  pub asks : BookSide
  pub index : Index
  pub pool : PoolCount
  pub next_id : ℕ
  pub next_ts : ℕ

unfoldable pub empty_book : ℕ → OrderBook
empty_book pool_capacity = record {
  bids = [];
  asks = [];
  index = record { at = λ _. none; count = 0 };
  pool = record { in_use = 0; capacity = pool_capacity };
  next_id = 1;
  next_ts = 1;
}

abbrev pub side_of : Side → OrderBook → BookSide
side_of buy b = b.bids
side_of sell b = b.asks

abbrev pub set_side : Side → BookSide → OrderBook → OrderBook
set_side buy l b = record b { bids = l }
set_side sell l b = record b { asks = l }

abbrev pub opposite : Side → Side
opposite buy = sell
opposite sell = buy

-- `OrderId` and `Timestamp` are 64 bits wide.
abbrev pub next64 : ℕ → ℕ
next64 n = (n + 1) % 2 ^ 64

-- The end of `place_limit`: what is left of the order rests, if the pool has a slot for it.
unfoldable pub rest_order : Side → ℕ → Price → Quantity → OrderBook → OrderBook
rest_order side id price remaining b =
    if is_pos remaining
    then elim (acquire b.pool) [
      | none ↦ b
      | some pool ↦
          let n : OrderNode = record {
            id = id;
            side = side;
            price = price;
            qty = remaining;
            ts = b.next_ts;
          } in
          set_side side (push_at side price n (side_of side b)) (record b {
            index = insert id (side, price) b.index;
            pool = pool;
            next_ts = next64 b.next_ts;
          })
    ]
    else b

-- The returned id, the trades pushed, and the book after the call.
unfoldable pub place_limit :
    Side → Price → Quantity → List Trade → OrderBook → Option (ℕ × List Trade × OrderBook)
place_limit side price qty trades b = do
  let opp = opposite side
  let id = b.next_id
  r ←
      match_against (length (side_of opp b) + 1) opp id price
        (record { qty = qty; trades = trades; index = b.index; pool = b.pool }) (side_of opp b)
  let b' =
      set_side opp r.1 (record b { index = r.0.index; pool = r.0.pool; next_id = next64 b.next_id })
  some (id, r.0.trades, rest_order side id price r.0.qty b')

-- The level branch of `cancel`; `none` is its `return false`.
unfoldable pub cancel_at : Price → ℕ → BookSide → Option BookSide
cancel_at px id levels = do
  lvl ← find px levels
  let lvl' = level_unlink lvl id
  some (if is_empty lvl' then erase_level px levels else set_level px lvl' levels)

unfoldable pub cancel : ℕ → OrderBook → Bool × OrderBook
cancel id b = elim (b.index.at id) [
  | none ↦ (false, b)
  | some ref ↦ elim (cancel_at ref.1 id (side_of ref.0 b)) [
    | none ↦ (false, b)
    | some levels ↦
        (true, set_side ref.0 levels (record b { index = erase id b.index; pool = release b.pool }))
  ]
]

-- 0 on an empty side.
unfoldable pub best_bid : OrderBook → Price
best_bid b = elim b.bids [ [] ↦ pos 0 | l ∷ _ ↦ l.0 ]

-- INT64_MAX on an empty side.
unfoldable pub best_ask : OrderBook → Price
best_ask b = elim b.asks [ [] ↦ pos (2 ^ 63 - 1) | l ∷ _ ↦ l.0 ]

-- The loop of `sum_level`, from the head on.
unfoldable pub sum_from : Quantity → Level → Quantity
sum_from q [] = q
sum_from q (n ∷ ns) = sum_from (q +ℤ n.qty) ns

unfoldable pub sum_level : Level → Quantity
unfolding sum_from
sum_level lvl = sum_from (pos 0) lvl

unfoldable pub qty_at : Side → Price → OrderBook → Quantity
qty_at side price b = elim (find price (side_of side b)) [ none ↦ pos 0 | some lvl ↦ sum_level lvl ]

unfoldable pub size : OrderBook → ℕ
size b = b.index.count
