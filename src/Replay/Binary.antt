-- ===== src/Replay/Binary.antt =====
-- The tick files of mvp/src/backtest/replay.cpp in the binary format: the struct's bytes as a 64-bit
-- little-endian host lays them out, 40 for a tick, of which the two behind the side are padding.
pub mod RoundTrip
use low_latency_hft_matching.Base.{
  ℕ, zero, suc, ◌+◌, ◌-◌, ◌*◌, ◌/◌, ◌%◌, ◌^◌, ◌<◌, ◌≤◌, ◌≡◌, refl, sym, ap, ◌∙◌, ℤ, pos, negsuc,
  List, [], ◌∷◌, ◌++◌, Option, none, some, ◌==◌, ltb, if◌then◌else◌, take, drop, length,
  length-append, take-append, drop-append, arith, true, false, if-true, ap₂,
}
use low_latency_hft_matching.Book.Priority.{All}
use low_latency_hft_matching.Fix.Numbers.{Bytes}
use low_latency_hft_matching.Fix.Lookups.{IsInt64}
use low_latency_hft_matching.Gateway.Orders.{to_u64}
use low_latency_hft_matching.Backtest.{Tick}

-- A number in so many bytes, the lowest first, and back.
unfoldable pub to_bytes : ℕ → ℕ → Bytes
to_bytes zero n = []
to_bytes (suc k) n = n % 256 ∷ to_bytes k (n / 256)

unfoldable pub of_bytes : Bytes → ℕ
of_bytes [] = 0
of_bytes (c ∷ cs) = c + 256 * of_bytes cs

-- An `int64_t` of two's complement.
unfoldable pub from_u64 : ℕ → ℤ
from_u64 n = if ltb n (2 ^ 63) then pos n else negsuc (2 ^ 64 - 1 - n)

unfoldable pub tick_bytes : ℕ × ℕ → Tick → Bytes
tick_bytes padding t =
    to_bytes 8 t.ts_ns
    ++ (to_bytes 4 t.symbol
        ++ (t.event
            ∷ t.side
            ∷ padding.0
            ∷ padding.1
            ∷ (to_bytes 8 (to_u64 t.price) ++ (to_bytes 8 (to_u64 t.qty) ++ to_bytes 8 t.ext_id))))

-- The number in the bytes at an offset.
unfoldable pub field_at : ℕ → ℕ → Bytes → ℕ
field_at offset size bytes = of_bytes (take size (drop offset bytes))

unfoldable pub tick_at : Bytes → Tick
tick_at bytes = record {
  ts_ns = field_at 0 8 bytes;
  symbol = field_at 8 4 bytes;
  event = field_at 12 1 bytes;
  side = field_at 13 1 bytes;
  price = from_u64 (field_at 16 8 bytes);
  qty = from_u64 (field_at 24 8 bytes);
  ext_id = field_at 32 8 bytes;
}

-- So many ticks one behind the other.
unfoldable pub ticks_at : ℕ → Bytes → List Tick
ticks_at zero bytes = []
ticks_at (suc n) bytes = tick_at (take 40 bytes) ∷ ticks_at n (drop 40 bytes)

-- `none` is the exception on a file that cannot be opened or whose size is not that of whole ticks.
unfoldable pub load_binary : Option Bytes → Option (List Tick)
load_binary none = none
load_binary (some file) =
    if length file % 40 == 0 then some (ticks_at (length file / 40) file) else none

-- What is written to a file that can be opened; the padding is what the memory holds there.
unfoldable pub save_binary : (ℕ → ℕ × ℕ) → ℕ → List Tick → Bytes
save_binary padding i [] = []
save_binary padding i (t ∷ ts) = tick_bytes (padding i) t ++ save_binary padding (i + 1) ts
