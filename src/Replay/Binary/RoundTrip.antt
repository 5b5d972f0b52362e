-- ===== src/Replay/Binary/RoundTrip.antt =====
-- Ticks that mvp/src/backtest/replay.cpp saves in the binary format are loaded again.
use low_latency_hft_matching.Base.{
  ℕ, zero, suc, ◌+◌, ◌-◌, ◌*◌, ◌/◌, ◌%◌, ◌^◌, ◌<◌, ◌≡◌, refl, sym, ap, ◌∙◌, ℤ, pos, negsuc, List,
  [], ◌∷◌, ◌++◌, some, ◌==◌, ltb, take, drop, length, length-append, take-append, drop-append,
  arith, true, false, if-true, ap₂,
}
use low_latency_hft_matching.Book.Priority.{All}
use low_latency_hft_matching.Fix.Lookups.{IsInt64}
use low_latency_hft_matching.Gateway.Orders.{to_u64}
use low_latency_hft_matching.Backtest.{Tick}
use low_latency_hft_matching.Replay.Binary.{
  to_bytes, of_bytes, from_u64, tick_bytes, field_at, tick_at, ticks_at, load_binary, save_binary,
}

-- The numbers of a tick fit their types.
pub record Fits (t : Tick) : Type 0 where
  pub ts_ns : t.ts_ns < 2 ^ 64
  pub symbol : t.symbol < 2 ^ 32
  pub event : t.event < 2 ^ 8
  pub side : t.side < 2 ^ 8
  pub price : IsInt64 t.price
  pub qty : IsInt64 t.qty
  pub ext_id : t.ext_id < 2 ^ 64

-- 256 to a power.
abbrev limit : ℕ → ℕ
limit zero = 1
limit (suc k) = 256 * limit k

of_bytes-to_bytes : (k n : ℕ) → n < limit k → of_bytes (to_bytes k n) ≡ n
unfolding of_bytes to_bytes
of_bytes-to_bytes zero n h = omega (arith, h)
of_bytes-to_bytes (suc k) n h = omega (arith, h, of_bytes-to_bytes k (n / 256) (omega (arith, h)))

length-to_bytes : (k n : ℕ) → length (to_bytes k n) ≡ k
unfolding to_bytes
length-to_bytes zero n = refl
length-to_bytes (suc k) n = ap suc (length-to_bytes k (n / 256))

length-tick_bytes : (padding : ℕ × ℕ) (t : Tick) → length (tick_bytes padding t) ≡ 40
unfolding tick_bytes to_bytes
length-tick_bytes padding t = refl

to_u64_bound : (v : ℤ) → to_u64 v < limit 8
unfolding to_u64
to_u64_bound (pos n) = omega arith
to_u64_bound (negsuc n) = omega arith

from_u64-to_u64 : (v : ℤ) → IsInt64 v → from_u64 (to_u64 v) ≡ v
unfolding from_u64 to_u64
from_u64-to_u64 (pos n) h =
    let small : n % 2 ^ 64 ≡ n = omega (arith, h.0) in
    let low : ltb n (2 ^ 63) ≡ true = ground (arith, h.0) in rw (small, low) refl
from_u64-to_u64 (negsuc n) h =
    let small : n % 2 ^ 64 ≡ n = omega (arith, h.1) in
    let high : ltb (2 ^ 64 - 1 - n) (2 ^ 63) ≡ false = ground (arith, h.1) in
    let twice : 2 ^ 64 - 1 - (2 ^ 64 - 1 - n) ≡ n = omega (arith, h.1) in
    rw (small, high) (ap negsuc twice)

signed_field : (v : ℤ) → IsInt64 v → from_u64 (of_bytes (to_bytes 8 (to_u64 v))) ≡ v
signed_field v h =
    ap from_u64 (of_bytes-to_bytes 8 (to_u64 v) (to_u64_bound v)) ∙ from_u64-to_u64 v h

one_byte : (c : ℕ) → of_bytes (c ∷ []) ≡ c
unfolding of_bytes
one_byte c = omega arith

tick_at-tick_bytes : (padding : ℕ × ℕ) (t : Tick) → Fits t → tick_at (tick_bytes padding t) ≡ t
unfolding tick_at tick_bytes field_at to_bytes of_bytes
tick_at-tick_bytes padding t h = λ i. record {
  ts_ns = of_bytes-to_bytes 8 t.ts_ns h.ts_ns i;
  symbol = of_bytes-to_bytes 4 t.symbol h.symbol i;
  event = one_byte t.event i;
  side = one_byte t.side i;
  price = signed_field t.price h.price i;
  qty = signed_field t.qty h.qty i;
  ext_id = of_bytes-to_bytes 8 t.ext_id h.ext_id i;
}

length-save_binary :
    (padding : ℕ → ℕ × ℕ) (i : ℕ) (ts : List Tick)
    → length (save_binary padding i ts) ≡ 40 * length ts
unfolding save_binary
length-save_binary padding i [] = refl
length-save_binary padding i (t ∷ ts) =
    length-append (tick_bytes (padding i) t) (save_binary padding (i + 1) ts)
    ∙ omega (arith, length-tick_bytes (padding i) t, length-save_binary padding (i + 1) ts)

ticks_at-save_binary :
    (padding : ℕ → ℕ × ℕ) (i : ℕ) (ts : List Tick)
    → All Fits ts
    → ticks_at (length ts) (save_binary padding i ts) ≡ ts
unfolding ticks_at save_binary
ticks_at-save_binary padding i [] h = refl
ticks_at-save_binary padding i (t ∷ ts) h =
    let first = tick_bytes (padding i) t in
    let more = save_binary padding (i + 1) ts in
    let l = length-tick_bytes (padding i) t in
    ap₂ (λ x xs. x ∷ xs)
      (ap tick_at (ap (λ n. take n (first ++ more)) (sym l) ∙ take-append first more)
        ∙ tick_at-tick_bytes (padding i) t h.0)
      (ap (ticks_at (length ts)) (ap (λ n. drop n (first ++ more)) (sym l) ∙ drop-append first more)
        ∙ ticks_at-save_binary padding (i + 1) ts h.1)

-- Ticks whose numbers fit their types are what `load_binary` gives for a file that `save_binary` wrote
-- of them, whatever stands in the padding.
pub load_binary-save_binary :
    (padding : ℕ → ℕ × ℕ) (ts : List Tick)
    → All Fits ts
    → load_binary (some (save_binary padding 0 ts)) ≡ some ts
unfolding load_binary
load_binary-save_binary padding ts h =
    let n = length-save_binary padding 0 ts in
    let whole : (length (save_binary padding 0 ts) % 40 == 0) ≡ true = ground (arith, n) in
    let size : length (save_binary padding 0 ts) / 40 ≡ length ts = omega (arith, n) in
    if-true (length (save_binary padding 0 ts) % 40 == 0) _ _ whole
    ∙ ap some
        (ap (λ k. ticks_at k (save_binary padding 0 ts)) size ∙ ticks_at-save_binary padding 0 ts h)
