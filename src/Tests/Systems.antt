-- ===== src/Tests/Systems.antt =====
-- Runs of the clock synchronisation, the tick files and the drivers.
use low_latency_hft_matching.Base.{
  ℕ, zero, suc, ◌+◌, ◌%◌, ◌^◌, ◌≤◌, ◌≡◌, pos, negsuc, ◌+ℤ◌, List, [], ◌∷◌, true, none, some, length,
  ltb, if◌then◌else◌, arith, refl, ◌==◌, Bool-cases, inl, inr,
}
use low_latency_hft_matching.Book.Types.{buy}
use low_latency_hft_matching.Fix.Numbers.{Bytes}
use low_latency_hft_matching.Backtest.{Tick, adds, cancels}
use low_latency_hft_matching.Ptp.{PtpSample, request, oracle_answer, sample_mock, master_offset_ns}
use low_latency_hft_matching.Ptp.Accuracy.{Accurate, exchange-Accurate}
use low_latency_hft_matching.Replay.Binary.{load_binary, save_binary}
use low_latency_hft_matching.Replay.Binary.RoundTrip.{Fits, load_binary-save_binary}
use low_latency_hft_matching.Replay.Csv.{load_csv, save_csv}
use low_latency_hft_matching.Replay.Csv.RoundTrip.{load_csv-save_csv}
use low_latency_hft_matching.Generator.{Draws, gen_ticks}
use low_latency_hft_matching.Generator.Streams.{IsOrderly, ends, opens, closes}
use low_latency_hft_matching.Engine.{new_engine}
use low_latency_hft_matching.Portfolio.{new_portfolio}
use low_latency_hft_matching.Strategy.{Desk}
use low_latency_hft_matching.Replay.{new_replay}
use low_latency_hft_matching.Replay.Cancels.{Finds, orderly-Finds}
use mathlib.Core.List.Permᴰ
use low_latency_hft_matching.Generator.Rounds.{IsDrawn}
use low_latency_hft_matching.Generator.Orderly.{IsVaried, gen_ticks-IsOrderly}
use low_latency_hft_matching.Drivers.{DpdkDriver, no_stats, poll_dpdk}
use low_latency_hft_matching.Drivers.Polling.{poll_dpdk_budget}

-- An event and a side that no enumeration has, and a price below zero.
abbrev odd_tick : Tick
odd_tick = record {
  ts_ns = 258;
  symbol = 1;
  event = 9;
  side = 200;
  price = negsuc 6;
  qty = pos 3;
  ext_id = 4;
}

load_binary-save_binary_example :
    load_binary (some (save_binary (λ i. (i, 171)) 0 (odd_tick ∷ odd_tick ∷ [])))
    ≡ some (odd_tick ∷ odd_tick ∷ [])
load_binary-save_binary_example =
    let odd : Fits odd_tick = record {
      ts_ns = omega arith;
      symbol = omega arith;
      event = omega arith;
      side = omega arith;
      price = (omega arith, omega arith);
      qty = (omega arith, omega arith);
      ext_id = omega arith;
    } in
    load_binary-save_binary (λ i. (i, 171)) (odd_tick ∷ odd_tick ∷ []) (odd, (odd, tt))

-- The oracle's clock is 50 behind; the request takes 30, the answer 10.
exchange-Accurate_example :
    (answer : Bytes) × (s : PtpSample) × (oracle_answer
        (request (pos 1000))
        (pos 1000 +ℤ pos 30 +ℤ negsuc 49)
        (pos 1000 +ℤ pos (30 + 5) +ℤ negsuc 49)
      ≡ some answer)
    × (sample_mock (pos 1000) (some answer) (pos 1000 +ℤ pos (30 + 5 + 10)) ≡ some s)
    × Accurate (negsuc 49 +ℤ master_offset_ns) 30 10 s
unfolding ◌+ℤ◌
exchange-Accurate_example =
    exchange-Accurate (pos 1000) (negsuc 49) 30 5 10 (omega arith, omega arith)
      (omega arith, omega arith) (omega arith, omega arith)

abbrev two_ticks : List Tick
two_ticks =
    record {
      ts_ns = 1000;
      symbol = 0;
      event = adds;
      side = 1;
      price = negsuc 4;
      qty = pos 7;
      ext_id = 1;
    }
    ∷ record {
      ts_ns = 1001;
      symbol = 3;
      event = cancels;
      side = 0;
      price = pos 0;
      qty = pos 0;
      ext_id = 1;
    }
    ∷ []

load_csv-save_csv_example : load_csv (some (save_csv two_ticks)) ≡ some two_ticks
load_csv-save_csv_example = load_csv-save_csv two_ticks (
  record {
    ts_ns = omega arith;
    symbol = omega arith;
    event = omega arith;
    side = omega arith;
    price = (omega arith, omega arith);
    qty = (omega arith, omega arith);
    ext_id = omega arith;
  },
  (
    record {
      ts_ns = omega arith;
      symbol = omega arith;
      event = omega arith;
      side = omega arith;
      price = (omega arith, omega arith);
      qty = (omega arith, omega arith);
      ext_id = omega arith;
    },
    tt,
  ),
)

-- Three packets at first, then none.
abbrev burst : ℕ → ℕ → List ℕ
burst zero n = if ltb n 3 then [] else 60 ∷ 60 ∷ 90 ∷ []
burst (suc k) n = []

burst_fits : (call n : ℕ) → length (burst call n) ≤ n
burst_fits zero n = ground arith
burst_fits (suc k) n = omega arith

abbrev polling : DpdkDriver
polling = record {
  running = true;
  native = some (record { eal_inited = true; port_started = true });
  stats = no_stats;
}

poll_dpdk_budget_example :
    (n : ℕ) × (d : DpdkDriver) × (poll_dpdk true burst 64 polling ≡ some (n, d))
    × (n ≤ 64)
    × (d.stats.rx_messages ≡ (0 + n) % 2 ^ 64)
    × (d.running ≡ true)
poll_dpdk_budget_example = poll_dpdk_budget burst burst_fits true 64 polling (omega arith)

-- Every other round asks for a cancel.
abbrev draws : Draws
draws = record {
  seed_qty = λ i. pos 7;
  gap_ns = λ k. 250;
  mid = λ k. pos 10000;
  roll = λ k. if k % 2 == 1 then 95 else 10;
  second_roll = λ k. k;
  side = λ k. buy;
  depth = λ k. pos 2;
  qty = λ k. pos 3;
  pick = λ k n. n;
}

draws-IsDrawn : IsDrawn draws
draws-IsDrawn = record {
  gap_bound = λ k. omega arith;
  seed_qty = λ k. omega arith;
  qty = λ k. omega arith;
  pick_bound = λ k n. omega arith;
}

draws-IsVaried : IsVaried 1 draws
draws-IsVaried k = elim (Bool-cases (k % 2 == 1)) [
  | inl odd ↦ (1, omega arith, ground (arith, odd))
  | inr even ↦ (0, omega arith, ground (arith, even))
]

gen_ticks-IsOrderly_example :
    (ts : List Tick) × (gen_ticks draws 7 3 ≡ some ts) × IsOrderly 0 1 [] ts × (length ts ≡ 403)
gen_ticks-IsOrderly_example =
    gen_ticks-IsOrderly draws draws-IsDrawn 1 draws-IsVaried 3 (omega arith)

abbrev tick : ℕ → ℕ → ℕ → Tick
tick ts_ns event qty = record {
  ts_ns = ts_ns;
  symbol = 0;
  event = event;
  side = 0;
  price = pos 100;
  qty = pos qty;
  ext_id = 7;
}

-- Order 7 is placed and cancelled.
short_stream : IsOrderly 0 1 [] (tick 5 adds 3 ∷ tick 9 cancels 0 ∷ [])
short_stream =
    opens (tick 5 adds 3) _ refl (omega arith) (omega arith) (omega arith)
      (closes (tick 9 cancels 0) [] [] refl (omega arith) (Permᴰ.refl (7 ∷ [])) ends)

abbrev quiet : Desk
quiet = record {
  engine = new_engine 8;
  routing = λ _. none;
  accounts = λ _. record {
    portfolio = new_portfolio;
    orders_submitted = 0;
    orders_filled = 0;
    orders_canceled = 0;
  };
}

orderly-Finds_example : Finds [] (tick 5 adds 3 ∷ tick 9 cancels 0 ∷ []) (new_replay quiet)
orderly-Finds_example = orderly-Finds [] _ (new_replay quiet) short_stream
