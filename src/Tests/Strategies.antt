-- ===== src/Tests/Strategies.antt =====
-- Runs of the strategies, their accounts and the replay.
use low_latency_hft_matching.Tests.Books.{stocked, stocked-IsValid}
use low_latency_hft_matching.Replay.Routing.{route-positions, route_forgets}
use low_latency_hft_matching.Replay.{route}
use low_latency_hft_matching.Strategy.Delivery.{position_of, flow, place_limit-positions}
use low_latency_hft_matching.Strategy
use low_latency_hft_matching.Strategy.{Desk, Account}
use low_latency_hft_matching.Book.Valid.{matched}
use low_latency_hft_matching.Book.Sweep.{eligible, beyond, flat, swept}
use low_latency_hft_matching.Book.Greedy.{fill}
use low_latency_hft_matching.Book.Levels.{push_at, find, set_level, level_push_back}
use low_latency_hft_matching.Book.{empty_book, rest_order, match_level, match_against, fill_head}
use low_latency_hft_matching.Base.{
  refl, pos, negsuc, ◌+ℤ◌, ◌-ℤ◌, [], ◌∷◌, arith, ◌==◌, if◌then◌else◌, none, some, min_ℤ, List, ◌≡◌,
}
use low_latency_hft_matching.Book.Types.{buy, Trade, erase, insert, release, acquire}
use low_latency_hft_matching.Portfolio.{quot_ℤ, new_portfolio}
use low_latency_hft_matching.Backtest.{Tick, trades, BookTop}
use low_latency_hft_matching.MaCross.{
  MaCrossConfig, MaCross, new_ma_cross, push_price, roll, pop_oldest, average, sign_of,
  order_to_target, signal, on_tick,
}
use low_latency_hft_matching.MaCross.Windows.{IsRolled, push_all, push_all-windows}

abbrev config : MaCrossConfig
config = record {
  fast_window = 1;
  slow_window = 2;
  target_position = pos 5;
  slippage_ticks = pos 1;
}

abbrev top : BookTop
top = record { bid_px = pos 99; bid_qty = pos 1; ask_px = pos 101; ask_qty = pos 1; mid = pos 100 }

-- One price seen, and short by 2.
abbrev started : MaCross
started = record {
  fast_win = pos 90 ∷ [];
  slow_win = pos 90 ∷ [];
  fast_sum = pos 90;
  slow_sum = pos 90;
  last_sign = pos 0;
}

abbrev print : Tick
print = record {
  ts_ns = 1;
  symbol = 0;
  event = trades;
  side = 0;
  price = pos 100;
  qty = pos 1;
  ext_id = 0;
}

placed_order : (on_tick config top (negsuc 1) print started).1 ≡ some (buy, pos 102, pos 7)
unfolding on_tick push_price roll pop_oldest average sign_of signal order_to_target quot_ℤ ◌+ℤ◌ ◌-ℤ◌
placed_order = refl

push_all-windows_example :
    IsRolled config
      (pos 7 ∷ pos 8 ∷ pos 9 ∷ [])
      (push_all config (pos 7 ∷ pos 8 ∷ pos 9 ∷ []) new_ma_cross)
push_all-windows_example = push_all-windows config (pos 7 ∷ pos 8 ∷ pos 9 ∷ [])

-- Strategy 7 owns order 1 of the stocked book.
abbrev desk : Desk
desk = record {
  engine = record { book = stocked; trades_scratch = []; last_trades = [] };
  routing = λ id. if id == 1 then some 7 else none;
  accounts = λ _. record {
    portfolio = new_portfolio;
    orders_submitted = 0;
    orders_filled = 0;
    orders_canceled = 0;
  };
}

abbrev deals : List Trade
deals =
    record { taker_id = 5; maker_id = 1; price = pos 100; qty = pos 4 }
    ∷ record { taker_id = 5; maker_id = 2; price = pos 100; qty = pos 3 }
    ∷ []

place_limit-positions_example :
    (d' : Desk) × (Strategy.place_limit 3 buy (pos 100) (pos 4) desk ≡ some (5, d'))
    × (position_of 7 d'.accounts
        ≡ pos 0
          +ℤ flow 7 d'.routing 3 buy
              (record { taker_id = 5; maker_id = 1; price = pos 100; qty = pos 4 } ∷ []))
unfolding empty_book rest_order push_at insert find set_level level_push_back erase release acquire
    fill eligible beyond flat swept match_level match_against fill_head matched min_ℤ ◌-ℤ◌ ◌+ℤ◌
place_limit-positions_example =
    place_limit-positions 3 buy (pos 100) (pos 4) desk 7 (omega arith) stocked-IsValid

route-positions_example : position_of 7 (route buy deals desk).accounts ≡ negsuc 3
unfolding ◌+ℤ◌ ◌-ℤ◌
route-positions_example = route-positions 7 buy deals desk (refl, (refl, tt))

-- One share of order 1 is left in the book.
route_forgets_example : (route buy deals desk).routing 1 ≡ none
route_forgets_example = route_forgets 1 buy deals desk refl
