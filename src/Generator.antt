-- ===== src/Generator.antt =====
-- The tick generator of mvp/bench/gen_ticks.cpp. What its random distributions give is an argument,
-- and with them the walk of the middle price, which is computed in doubles.
pub mod Streams
pub mod Rounds
pub mod Orderly
use low_latency_hft_matching.Base.{
  ℕ, zero, suc, ◌+◌, ◌-◌, ◌%◌, ◌^◌, ℤ, pos, ◌+ℤ◌, ◌-ℤ◌, List, [], ◌∷◌, ◌++◌, Bool, true, false, not,
  Option, none, some, ltb, length, get_elem?, set, if◌then◌else◌, ◌>>=◌,
}
use low_latency_hft_matching.Book.Types.{Side, buy, sell, Price, Quantity}
use low_latency_hft_matching.Strategy.{increment}
use low_latency_hft_matching.Backtest.{Tick, adds, cancels, trades}

-- By the number of the round: the quantity of a seeding round; of a round of the main stream the gap,
-- `mid` cast to an integer, the two draws of `ev_dist`, the side, the depth, the quantity, and the
-- draw from 0 to a bound.
pub record Draws : Type 0 where
  pub seed_qty : ℕ → Quantity
  pub gap_ns : ℕ → ℕ
  pub mid : ℕ → Price
  pub roll : ℕ → ℕ
  pub second_roll : ℕ → ℕ
  pub side : ℕ → Side
  pub depth : ℕ → Price
  pub qty : ℕ → Quantity
  pub pick : ℕ → ℕ → ℕ

-- The locals of `main`.
pub record Generator : Type 0 where
  pub ts : ℕ
  pub next_ext : ℕ
  pub live_ext_ids : List ℕ

unfoldable pub new_generator : Generator
new_generator = record { ts = 1000000000; next_ext = 1; live_ext_ids = [] }

unfoldable pub back : List ℕ → Option ℕ
back [] = none
back (x ∷ []) = some x
back (x ∷ y ∷ ys) = back (y ∷ ys)

unfoldable pub pop_back : List ℕ → List ℕ
pop_back [] = []
pop_back (x ∷ []) = []
pop_back (x ∷ y ∷ ys) = x ∷ pop_back (y ∷ ys)

-- The last element is moved to the index, and the last place removed.
unfoldable pub swap_remove : ℕ → List ℕ → List ℕ
swap_remove idx ids = elim (back ids) [ none ↦ ids | some last ↦ pop_back (set ids idx last) ]

-- The two ticks of a seeding round, around the middle of 10000.
unfoldable pub seed_bid : Draws → ℕ → Generator → Tick
seed_bid d i g = record {
  ts_ns = g.ts;
  symbol = 0;
  event = adds;
  side = 0;
  price = pos 10000 -ℤ pos 1 -ℤ pos (i % 10);
  qty = d.seed_qty i;
  ext_id = g.next_ext;
}

unfoldable pub seed_ask : Draws → ℕ → Generator → Tick
seed_ask d i g = record {
  ts_ns = increment g.ts;
  symbol = 0;
  event = adds;
  side = 1;
  price = pos 10000 +ℤ pos 1 +ℤ pos (i % 10);
  qty = d.seed_qty i;
  ext_id = increment g.next_ext;
}

-- As many seeding rounds from number `i` on, and the ticks that are written behind them.
unfoldable pub seed_rounds : Draws → ℕ → ℕ → Generator → List Tick × Generator
seed_rounds d zero i g = ([], g)
seed_rounds d (suc left) i g =
    let rest =
      seed_rounds d left (i + 1) (record g {
        ts = increment (increment g.ts);
        next_ext = increment (increment g.next_ext);
      }) in
    (seed_bid d i g ∷ seed_ask d i g ∷ rest.0, rest.1)

-- The byte of a side.
abbrev side_byte : Side → ℕ
side_byte buy = 0
side_byte sell = 1

-- How far from the middle an order is placed: beyond it if it is to be marketable.
unfoldable pub offset : Side → Bool → Price → Price
offset buy marketable off = if marketable then off else pos 0 -ℤ off
offset sell marketable off = if marketable then pos 0 -ℤ off else off

unfoldable pub add_tick : Draws → ℕ → Generator → Tick
add_tick d k g = record {
  ts_ns = g.ts;
  symbol = 0;
  event = adds;
  side = side_byte (d.side k);
  price = d.mid k +ℤ offset (d.side k) (ltb (d.second_roll k) 15) (d.depth k);
  qty = d.qty k;
  ext_id = g.next_ext;
}

unfoldable pub print_tick : Draws → ℕ → Generator → Tick
print_tick d k g = record {
  ts_ns = g.ts;
  symbol = 0;
  event = trades;
  side = side_byte (d.side k);
  price = d.mid k;
  qty = d.qty k;
  ext_id = 0;
}

unfoldable pub cancel_tick : ℕ → Generator → Tick
cancel_tick id g = record {
  ts_ns = g.ts;
  symbol = 0;
  event = cancels;
  side = 0;
  price = pos 0;
  qty = pos 0;
  ext_id = id;
}

-- The branch that cancels: with no live order there is nothing to pick, and no tick.
unfoldable pub cancel_round : Draws → ℕ → Generator → Option Tick × Generator
cancel_round d k g =
    let idx = d.pick k (length g.live_ext_ids - 1) in
    elim (get_elem? g.live_ext_ids idx) [
      | none ↦ (none, g)
      | some id ↦
          (some (cancel_tick id g), record g { live_ext_ids = swap_remove idx g.live_ext_ids })
    ]

-- A round of the main stream.
unfoldable pub stream_round : Draws → ℕ → Generator → Option Tick × Generator
unfolding cancel_round
stream_round d k old =
    let g = record old { ts = (old.ts + d.gap_ns k) % 2 ^ 64 } in
    if ltb (d.roll k) 70
    then (
      some (add_tick d k g),
      record g {
        next_ext = increment g.next_ext;
        live_ext_ids = g.live_ext_ids ++ g.next_ext ∷ [];
      },
    )
    else if ltb (d.roll k) 90
    then (some (print_tick d k g), g)
    else cancel_round d k g

-- The main stream: so many more ticks, from round `k` on; `none` out of fuel.
unfoldable pub stream : Draws → ℕ → ℕ → ℕ → Generator → Option (List Tick)
stream d zero n k g = none
stream d (suc fuel) zero k g = some []
stream d (suc fuel) (suc n) k g =
    let r = stream_round d k g in
    elim r.0 [
      | none ↦ stream d fuel (suc n) (k + 1) r.1
      | some t ↦ stream d fuel n (k + 1) r.1 >>= λ ts. some (t ∷ ts)
    ]

-- What `main` saves: 200 seeding rounds and `n` ticks.
unfoldable pub gen_ticks : Draws → ℕ → ℕ → Option (List Tick)
gen_ticks d fuel n =
    let seeded = seed_rounds d 200 0 new_generator in
    stream d fuel n 0 seeded.1 >>= λ ts. some (seeded.0 ++ ts)
