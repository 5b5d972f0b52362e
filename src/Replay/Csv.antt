-- ===== src/Replay/Csv.antt =====
-- The tick files of mvp/src/backtest/replay.cpp in the text format. A file is its bytes.
pub mod RoundTrip
use low_latency_hft_matching.Base.{
  ℕ, ◌+◌, ◌-◌, ◌^◌, ℤ, List, [], ◌∷◌, ◌++◌, Bool, true, false, ◌&&◌, ◌||◌, Option, none, some, ◌==◌,
  is_empty, if◌then◌else◌, ◌>>=◌, take, length,
}
use low_latency_hft_matching.Book.Types.{Side, buy, sell}
use low_latency_hft_matching.Fix.Numbers.{Bytes, to_chars}
use low_latency_hft_matching.Fix.Framing.{eqb_bytes}
use low_latency_hft_matching.Fix.Building.{int_chars}
use low_latency_hft_matching.Scan.{scan_unsigned, scan_signed, scan_char, scan_text}
use low_latency_hft_matching.Backtest.{Tick, adds, cancels, trades}

-- A byte in front of the first line.
unfoldable pub cons_first : ℕ → List Bytes → List Bytes
cons_first c [] = (c ∷ []) ∷ []
cons_first c (l ∷ ls) = (c ∷ l) ∷ ls

-- What `std::getline` gives, call after call.
unfoldable pub lines : Bytes → List Bytes
lines [] = []
lines (c ∷ cs) = let rest = lines cs in if c == 10 then [] ∷ rest else cons_first c rest

-- "ts_ns"
abbrev pub ts_ns : Bytes
ts_ns = 116 ∷ 115 ∷ 95 ∷ 110 ∷ 115 ∷ []

-- Whether `find` finds the text.
unfoldable pub contains : Bytes → Bytes → Bool
contains text [] = is_empty text
contains text (c ∷ cs) = eqb_bytes (take (length text) (c ∷ cs)) text || contains text cs

-- The first line is skipped if it is a header.
unfoldable pub data_lines : List Bytes → List Bytes
data_lines [] = []
data_lines (l ∷ ls) = if contains ts_ns l then ls else l ∷ ls

unfoldable pub event_of : ℕ → ℕ
event_of ev = if ev == 67 then cancels else if ev == 84 then trades else adds

unfoldable pub side_from : ℕ → ℕ
side_from sd = if sd == 83 then 1 else 0

abbrev pub comma : Bytes
comma = 44 ∷ []

-- "%llu,%u,%c,%c,%lld,%lld,%llu"; `none` if fewer than seven conversions succeed.
unfoldable pub scan_tick : Bytes → Option Tick
scan_tick line = do
  ts ← scan_unsigned (2 ^ 64 - 1) line
  r1 ← scan_text comma ts.1
  sym ← scan_unsigned (2 ^ 32 - 1) r1
  r2 ← scan_text comma sym.1
  ev ← scan_char r2
  r3 ← scan_text comma ev.1
  sd ← scan_char r3
  r4 ← scan_text comma sd.1
  px ← scan_signed r4
  r5 ← scan_text comma px.1
  qy ← scan_signed r5
  r6 ← scan_text comma qy.1
  ext ← scan_unsigned (2 ^ 64 - 1) r6
  some (record {
    ts_ns = ts.0;
    symbol = sym.0;
    event = event_of ev.0;
    side = side_from sd.0;
    price = px.0;
    qty = qy.0;
    ext_id = ext.0;
  })

-- A line that is empty or does not scan is passed over.
unfoldable pub scan_ticks : List Bytes → List Tick
scan_ticks [] = []
scan_ticks (l ∷ ls) =
    let rest = scan_ticks ls in
    if is_empty l then rest else elim (scan_tick l) [ none ↦ rest | some t ↦ t ∷ rest ]

-- `none` is the exception on a file that cannot be opened.
unfoldable pub load_csv : Option Bytes → Option (List Tick)
load_csv none = none
load_csv (some file) = some (scan_ticks (data_lines (lines file)))

unfoldable pub event_char : ℕ → ℕ
event_char event = if event == cancels then 67 else if event == trades then 84 else 65

unfoldable pub side_letter : ℕ → ℕ
side_letter side = if side == 1 then 83 else 66

unfoldable pub tick_line : Tick → Bytes
tick_line t =
    to_chars t.ts_ns
    ++ (44
        ∷ (to_chars t.symbol
            ++ (44
                ∷ event_char t.event
                ∷ 44
                ∷ side_letter t.side
                ∷ 44
                ∷ (int_chars t.price ++ (44 ∷ (int_chars t.qty ++ (44 ∷ to_chars t.ext_id)))))))

unfoldable pub tick_lines : List Tick → Bytes
tick_lines [] = []
tick_lines (t ∷ ts) = tick_line t ++ 10 ∷ tick_lines ts

-- "ts_ns,symbol,event,side,price,qty,ext_id"
abbrev pub header_line : Bytes
header_line =
    116 ∷ 115 ∷ 95 ∷ 110 ∷ 115 ∷ 44 ∷ 115 ∷ 121 ∷ 109 ∷ 98 ∷ 111 ∷ 108 ∷ 44 ∷ 101 ∷ 118 ∷ 101 ∷ 110
    ∷ 116 ∷ 44 ∷ 115 ∷ 105 ∷ 100 ∷ 101 ∷ 44 ∷ 112 ∷ 114 ∷ 105 ∷ 99 ∷ 101 ∷ 44 ∷ 113 ∷ 116 ∷ 121 ∷ 44
    ∷ 101 ∷ 120 ∷ 116 ∷ 95 ∷ 105 ∷ 100 ∷ []

-- What is written to a file that can be opened.
unfoldable pub save_csv : List Tick → Bytes
save_csv ticks = header_line ++ 10 ∷ tick_lines ticks
