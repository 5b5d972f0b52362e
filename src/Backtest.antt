-- ===== src/Backtest.antt =====
-- What the backtester of mvp/src/backtest shows to a strategy: the tick and the top of the book
-- (strategy.h, replay.h, replay.cpp).
pub mod Top
use low_latency_hft_matching.Base.{ℕ, ℤ, pos, ◌+ℤ◌, eqb_ℤ, ◌^◌, ◌-◌, ◌==◌, if◌then◌else◌}
use low_latency_hft_matching.Book.{OrderBook, best_bid, best_ask, qty_at}
use low_latency_hft_matching.Book.Types.{Side, buy, sell, Price, Quantity}
use low_latency_hft_matching.Portfolio.{quot_ℤ}

-- The enumerators of `EventType`. A tick holds its event and its side as bytes, which a binary file
-- may set to any value.
abbrev pub adds : ℕ
adds = 0

abbrev pub cancels : ℕ
cancels = 1

abbrev pub trades : ℕ
trades = 2

pub record Tick : Type 0 where
  pub ts_ns : ℕ
  pub symbol : ℕ
  pub event : ℕ
  pub side : ℕ
  pub price : Price
  pub qty : Quantity
  pub ext_id : ℕ

-- `static_cast<Side>` of a byte: the code compares a side with `Buy` only, so that every byte but 0
-- sells.
unfoldable pub side_of_byte : ℕ → Side
side_of_byte n = if n == 0 then buy else sell

pub record BookTop : Type 0 where
  pub bid_px : Price
  pub bid_qty : Quantity
  pub ask_px : Price
  pub ask_qty : Quantity
  pub mid : Price

-- The mark: the middle, the one side that there is, or the last trade.
unfoldable pub mid_of : Price → Price → Price → Price
mid_of bid_px ask_px last_trade_px =
    if eqb_ℤ bid_px (pos 0)
    then if eqb_ℤ ask_px (pos 0) then last_trade_px else ask_px
    else if eqb_ℤ ask_px (pos 0)
    then bid_px
    else quot_ℤ (bid_px +ℤ ask_px) (pos 2)

unfoldable pub snapshot_top : OrderBook → Price → BookTop
snapshot_top book last_trade_px =
    let bid_px = best_bid book in
    let ask_px = if eqb_ℤ (best_ask book) (pos (2 ^ 63 - 1)) then pos 0 else best_ask book in
    record {
      bid_px = bid_px;
      bid_qty = if eqb_ℤ bid_px (pos 0) then pos 0 else qty_at buy bid_px book;
      ask_px = ask_px;
      ask_qty = if eqb_ℤ ask_px (pos 0) then pos 0 else qty_at sell ask_px book;
      mid = mid_of bid_px ask_px last_trade_px;
    }
