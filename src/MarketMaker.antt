-- ===== src/MarketMaker.antt =====
-- The market maker of mvp/strategies/mm.h and mm.cpp, as strategy `owner` of a desk.
pub mod Quoting
use low_latency_hft_matching.Base.{
  ℕ, ◌%◌, ℤ, pos, pos_part, neg_part, ◌+ℤ◌, ◌-ℤ◌, eqb_ℤ, leb_ℤ, Bool, true, false, not, ◌&&◌, ◌||◌,
  Option, none, some, ◌==◌, if◌then◌else◌, ◌>>=◌,
}
use low_latency_hft_matching.Book.Types.{buy, sell, Price, Quantity}
use low_latency_hft_matching.Portfolio.{neg_ℤ, abs_ℤ}
use low_latency_hft_matching.Strategy.{Desk, increment}
use low_latency_hft_matching.Strategy
use low_latency_hft_matching.Backtest.{BookTop}

pub record MarketMakerConfig : Type 0 where
  pub quote_qty : Quantity
  pub spread : Price
  pub requote_threshold : Price
  pub requote_interval : ℕ
  pub inventory_limit : Quantity

pub record MarketMaker : Type 0 where
  pub last_quote_mid : Price
  pub tick_counter : ℕ
  pub bid_id : ℕ
  pub ask_id : ℕ

-- `if (id) { ctx.cancel(id); }`
unfoldable pub cancel_quote : ℕ → ℕ → Desk → Desk
cancel_quote owner id d = if id == 0 then d else (Strategy.cancel owner id d).1

unfoldable pub cancel_quotes : ℕ → MarketMaker × Desk → MarketMaker × Desk
cancel_quotes owner (m, d) = (
  record m { bid_id = 0; ask_id = 0 },
  cancel_quote owner m.ask_id (cancel_quote owner m.bid_id d),
)

unfoldable pub quote_bid :
    MarketMakerConfig → ℕ → Price → MarketMaker × Desk → Option (MarketMaker × Desk)
quote_bid cfg owner mid (m, d) = do
  r ← Strategy.place_limit owner buy (mid -ℤ cfg.spread) cfg.quote_qty d
  some (record m { bid_id = r.0 }, r.1)

unfoldable pub quote_ask :
    MarketMakerConfig → ℕ → Price → MarketMaker × Desk → Option (MarketMaker × Desk)
quote_ask cfg owner mid (m, d) = do
  r ← Strategy.place_limit owner sell (mid +ℤ cfg.spread) cfg.quote_qty d
  some (record m { ask_id = r.0 }, r.1)

-- The position is read once, before both quotes.
unfoldable pub place_quotes :
    MarketMakerConfig → ℕ → Price → MarketMaker × Desk → Option (MarketMaker × Desk)
place_quotes cfg owner mid s = do
  let position = (s.1.accounts owner).portfolio.position
  s' ← if leb_ℤ position cfg.inventory_limit then quote_bid cfg owner mid s else some s
  s'' ← if leb_ℤ (neg_ℤ cfg.inventory_limit) position then quote_ask cfg owner mid s' else some s'
  some (record s''.0 { last_quote_mid = mid }, s''.1)

-- `on_tick`. The interval is not 0.
unfoldable pub quote_tick :
    MarketMakerConfig → ℕ → BookTop → MarketMaker × Desk → Option (MarketMaker × Desk)
quote_tick cfg owner top (m, d) =
    let m' : MarketMaker = record m { tick_counter = increment m.tick_counter } in
    let mid_moved =
      eqb_ℤ m.last_quote_mid (pos 0)
      || leb_ℤ cfg.requote_threshold (abs_ℤ (top.mid -ℤ m.last_quote_mid)) in
    let interval_hit = (m'.tick_counter % cfg.requote_interval) == 0 in
    if eqb_ℤ top.bid_px (pos 0) || eqb_ℤ top.ask_px (pos 0)
    then some (m, d)
    else if not mid_moved && not interval_hit
    then some (m', d)
    else place_quotes cfg owner top.mid (cancel_quotes owner (m', d))
