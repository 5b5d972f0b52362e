-- ===== src/Replay.antt =====
-- `Replay::run` of mvp/src/backtest/replay.cpp, without the pauses of its real-time mode. A strategy's
-- `on_tick` is an argument: what it does to the desk through its context.
pub mod Routing
pub mod Csv
pub mod Cancels
pub mod Binary
use low_latency_hft_matching.Base.{
  ℕ, zero, suc, ◌+◌, ◌%◌, ◌^◌, ℤ, pos, List, [], ◌∷◌, Bool, true, false, Option, none, some, ◌==◌,
  if◌then◌else◌, ◌>>=◌,
}
use low_latency_hft_matching.Book.{opposite}
use low_latency_hft_matching.Book.Types.{Side, Price, Quantity, Trade}
use low_latency_hft_matching.Engine.{Engine}
use low_latency_hft_matching.Engine
use low_latency_hft_matching.Strategy.{Account, Desk, update, increment, credit_maker}
use low_latency_hft_matching.Backtest.{
  Tick, side_of_byte, adds, cancels, trades, BookTop, snapshot_top,
}

pub record ReplayStats : Type 0 where
  pub ticks_consumed : ℕ
  pub exogenous_adds : ℕ
  pub exogenous_cancels : ℕ
  pub trade_prints : ℕ
  pub engine_trades : ℕ

-- The locals of `run`.
pub record Replay : Type 0 where
  pub desk : Desk
  pub ext_to_eng : ℕ → Option ℕ
  pub last_trade_px : Price
  pub stats : ReplayStats

unfoldable pub new_replay : Desk → Replay
new_replay desk = record {
  desk = desk;
  ext_to_eng = λ id. none;
  last_trade_px = pos 0;
  stats = record {
    ticks_consumed = 0;
    exogenous_adds = 0;
    exogenous_cancels = 0;
    trade_prints = 0;
    engine_trades = 0;
  };
}

-- One trade of an exogenous order: its maker's strategy is credited, and loses the routing.
unfoldable pub route_trade : Side → Trade → Desk → Desk
route_trade side t d = record d {
  accounts = credit_maker (d.routing t.maker_id) (opposite side) t d.accounts;
  routing = update t.maker_id none d.routing;
}

unfoldable pub route : Side → List Trade → Desk → Desk
route side [] d = d
route side (t ∷ ts) d = route side ts (route_trade side t d)

-- The price of the last trade, or the old one.
unfoldable pub last_price : Price → List Trade → Price
last_price px [] = px
last_price px (t ∷ ts) = last_price t.price ts

unfoldable pub count_trades : ℕ → List Trade → ℕ
count_trades n [] = n
count_trades n (t ∷ ts) = count_trades (increment n) ts

unfoldable pub apply_add : Tick → Replay → Option Replay
apply_add t r = do
  e ← Engine.place_limit (side_of_byte t.side) t.price t.qty r.desk.engine
  let ts = e.1.last_trades
  some (record r {
    desk = route (side_of_byte t.side) ts (record r.desk { engine = e.1 });
    ext_to_eng = if t.ext_id == 0 then r.ext_to_eng else update t.ext_id (some e.0) r.ext_to_eng;
    last_trade_px = last_price r.last_trade_px ts;
    stats = record r.stats {
      exogenous_adds = increment r.stats.exogenous_adds;
      engine_trades = count_trades r.stats.engine_trades ts;
    };
  })

unfoldable pub apply_cancel : Tick → Replay → Replay
apply_cancel t r =
    let stats : ReplayStats = record r.stats {
      exogenous_cancels = increment r.stats.exogenous_cancels;
    } in
    elim (r.ext_to_eng t.ext_id) [
      | none ↦ record r { stats = stats }
      | some id ↦ record r {
        stats = stats;
        desk = record r.desk { engine = (Engine.cancel id r.desk.engine).1 };
        ext_to_eng = update t.ext_id none r.ext_to_eng;
      }
    ]

unfoldable pub apply_trade : Tick → Replay → Replay
apply_trade t r = record r {
  stats = record r.stats { trade_prints = increment r.stats.trade_prints };
  last_trade_px = t.price;
}

-- The switch over the event; a byte that is none of the enumerators has no case.
unfoldable pub apply_event : ℕ → Tick → Replay → Option Replay
apply_event event t r =
    if event == adds
    then apply_add t r
    else if event == cancels
    then some (apply_cancel t r)
    else if event == trades
    then some (apply_trade t r)
    else some r

-- The strategies in order, each with the same snapshot.
unfoldable pub tick_all :
    List (BookTop → Tick → Desk → Option Desk) → BookTop → Tick → Desk → Option Desk
tick_all [] top t d = some d
tick_all (s ∷ ss) top t d = s top t d >>= λ d'. tick_all ss top t d'

unfoldable pub replay_tick :
    List (BookTop → Tick → Desk → Option Desk) → Tick → Replay → Option Replay
replay_tick strategies t r = do
  r' ←
      apply_event t.event t
        (record r { stats = record r.stats { ticks_consumed = increment r.stats.ticks_consumed } })
  d ← tick_all strategies (snapshot_top r'.desk.engine.book r'.last_trade_px) t r'.desk
  some (record r' { desk = d })

unfoldable pub replay :
    List (BookTop → Tick → Desk → Option Desk) → List Tick → Replay → Option Replay
replay strategies [] r = some r
replay strategies (t ∷ ts) r = replay_tick strategies t r >>= λ r'. replay strategies ts r'
