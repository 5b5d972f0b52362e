-- ===== src/MaCross.antt =====
-- The moving average crossover of mvp/strategies/ma_cross.h and ma_cross.cpp. `on_tick` places one
-- order at most, at its end, which is returned.
pub mod Windows
pub mod Crossing
pub mod Orders
pub mod Signals
use low_latency_hft_matching.Base.{
  ℕ, ◌<◌, ◌==◌, ℤ, pos, negsuc, ◌+ℤ◌, ◌-ℤ◌, eqb_ℤ, ltb_ℤ, is_pos, List, [], ◌∷◌, ◌++◌, Bool, true,
  false, not, ◌&&◌, ◌||◌, Option, none, some, length, is_empty, ltb, if◌then◌else◌,
}
use low_latency_hft_matching.Book.Types.{Side, buy, sell, Price, Quantity}
use low_latency_hft_matching.Portfolio.{quot_ℤ, neg_ℤ}
use low_latency_hft_matching.Backtest.{Tick, trades, BookTop}

pub record MaCrossConfig : Type 0 where
  pub fast_window : ℕ
  pub slow_window : ℕ
  pub target_position : Quantity
  pub slippage_ticks : Price

pub record MaCross : Type 0 where
  pub fast_win : List Price
  pub slow_win : List Price
  pub fast_sum : ℤ
  pub slow_sum : ℤ
  pub last_sign : ℤ

abbrev pub new_ma_cross : MaCross
new_ma_cross = record {
  fast_win = [];
  slow_win = [];
  fast_sum = pos 0;
  slow_sum = pos 0;
  last_sign = pos 0;
}

-- `sum -= win.front(); win.pop_front()`
unfoldable pub pop_oldest : List Price × ℤ → List Price × ℤ
pop_oldest ([], sum) = ([], sum)
pop_oldest (p ∷ win, sum) = (win, sum -ℤ p)

-- One window and its sum take in a price.
unfoldable pub roll : ℕ → Price → List Price × ℤ → List Price × ℤ
roll window p (win, sum) =
    if ltb window (length (win ++ p ∷ []))
    then pop_oldest (win ++ p ∷ [], sum +ℤ p)
    else (win ++ p ∷ [], sum +ℤ p)

unfoldable pub push_price : MaCrossConfig → Price → MaCross → MaCross
push_price cfg p m =
    let fast = roll cfg.fast_window p (m.fast_win, m.fast_sum) in
    let slow = roll cfg.slow_window p (m.slow_win, m.slow_sum) in
    record m { fast_win = fast.0; fast_sum = fast.1; slow_win = slow.0; slow_sum = slow.1 }

-- `fast_avg` and `slow_avg`.
unfoldable pub average : List Price → ℤ → Price
average win sum = if is_empty win then pos 0 else quot_ℤ sum (pos (length win))

abbrev pub fast_avg : MaCross → Price
fast_avg m = average m.fast_win m.fast_sum

abbrev pub slow_avg : MaCross → Price
slow_avg m = average m.slow_win m.slow_sum

unfoldable pub sign_of : Price → Price → ℤ
sign_of f s = if ltb_ℤ s f then pos 1 else if ltb_ℤ f s then negsuc 0 else pos 0

-- The order that takes the position to the target of this sign.
unfoldable pub order_to_target :
    MaCrossConfig → BookTop → Quantity → ℤ → Option (Side × Price × Quantity)
order_to_target cfg top position sign =
    let target = cfg.target_position in
    if is_pos sign
    then if is_pos (target -ℤ position)
      then some (buy, top.ask_px +ℤ cfg.slippage_ticks, target -ℤ position)
      else none
    else if is_pos (position -ℤ neg_ℤ target)
    then some (sell, top.bid_px -ℤ cfg.slippage_ticks, position -ℤ neg_ℤ target)
    else none

-- From the warm-up test on.
unfoldable pub signal :
    MaCrossConfig → BookTop → Quantity → MaCross → MaCross × Option (Side × Price × Quantity)
signal cfg top position m =
    let sign = sign_of (fast_avg m) (slow_avg m) in
    if ltb (length m.slow_win) cfg.slow_window
    then (m, none)
    else if eqb_ℤ sign (pos 0) || eqb_ℤ sign m.last_sign
    then (m, none)
    else if eqb_ℤ top.bid_px (pos 0) || eqb_ℤ top.ask_px (pos 0)
    then (record m { last_sign = sign }, none)
    else (record m { last_sign = sign }, order_to_target cfg top position sign)

abbrev is_trade : ℕ → Bool
is_trade event = event == trades

unfoldable pub on_tick :
    MaCrossConfig → BookTop → Quantity → Tick → MaCross → MaCross × Option (Side × Price × Quantity)
on_tick cfg top position t m =
    if is_trade t.event
    then signal cfg top position (push_price cfg t.price m)
    else if not (eqb_ℤ top.mid (pos 0))
    then signal cfg top position (push_price cfg top.mid m)
    else (m, none)
