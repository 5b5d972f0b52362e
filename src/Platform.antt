-- ===== src/Platform.antt =====
-- What the gateway of mvp/src/fix/gateway.cpp and the feed of mvp/src/md/feed.cpp take from the C++
-- library and the operating system: `double`, and the calls that send; and the memory that the builder of
-- mvp/src/fix/parser.cpp reads beyond its buffer.
use low_latency_hft_matching.Base.{ℕ, ◌≤◌, ◌<◌, ◌≡◌, ℤ, pos, Bool, Option}
use low_latency_hft_matching.Fix.Numbers.{Bytes}

pub record Platform : Type 1 where
  -- `double`, its comparison, arithmetic and conversions from and to `int64_t`.
  pub Double : Type 0
  pub le : Double → Double → Bool
  pub add : Double → Double → Double
  pub mul : Double → Double → Double
  pub div : Double → Double → Double
  pub of_int : ℤ → Double
  pub to_int : Double → ℤ
  -- The literal 0.5.
  pub half : Double
  -- `strtod`, with `none` where it reads no number, and `%.*f`.
  pub strtod : Bytes → Option Double
  pub print : Double → ℕ → Bytes
  -- So many bytes of the memory behind `add_double`'s buffer.
  pub behind : ℕ → Bytes
  -- What the call of `::send` with this number on a session's socket returns, for this many bytes.
  pub send : ℕ → ℕ → ℤ
  -- What `::sendto` returns for the datagram with this sequence number.
  pub sendto : ℕ → Bytes → ℤ

-- A socket that never fails: each call takes some of the bytes, and not more than there are.
pub record NeverFails (P : Platform) : Type 0 where
  pub took : ℕ → ℕ → ℕ
  pub some_taken : (k n : ℕ) → 0 < n → 0 < took k n
  pub no_more : (k n : ℕ) → took k n ≤ n
  pub returned : (k n : ℕ) → P.send k n ≡ pos (took k n)
