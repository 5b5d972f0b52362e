-- ===== src/Fix/Framing.antt =====
-- `checksum`, `split_frame` and `parse_frame` of mvp/src/fix/parser.cpp.
use low_latency_hft_matching.Base.{
  ℕ, zero, suc, ◌+◌, ◌-◌, ◌*◌, ◌%◌, ◌^◌, [], ◌∷◌, ◌++◌, Bool, true, false, not, ◌&&◌, Option, none,
  some, ltb, leb, ◌==◌, if◌then◌else◌, length, take, drop, ◌>>=◌,
}
use low_latency_hft_matching.Fix.{Field, Message, soh}
use low_latency_hft_matching.Fix.Numbers.{Bytes, is_digit, from_digits}

-- The loop of `checksum`: a `uint32_t` sum.
unfoldable pub sum_bytes : ℕ → Bytes → ℕ
sum_bytes sum [] = sum
sum_bytes sum (c ∷ cs) = sum_bytes ((sum + c) % 2 ^ 32) cs

unfoldable pub checksum : Bytes → ℕ
checksum bytes = sum_bytes 0 bytes % 256

-- "8=FIX.4.4" and a separator.
abbrev pub begin_string : Bytes
begin_string = 56 ∷ 61 ∷ 70 ∷ 73 ∷ 88 ∷ 46 ∷ 52 ∷ 46 ∷ 52 ∷ soh ∷ []

-- `FrameStatus`, with what `Ok` writes to `out_frame` and `out_consumed`.
pub data FrameStatus : Type 0 where
  ok : Bytes → ℕ → FrameStatus
  incomplete malformed : FrameStatus

unfoldable pub eqb_bytes : Bytes → Bytes → Bool
eqb_bytes [] [] = true
eqb_bytes [] (y ∷ ys) = false
eqb_bytes (x ∷ xs) [] = false
eqb_bytes (x ∷ xs) (y ∷ ys) = (x == y) && eqb_bytes xs ys

-- `buf[i]`; every use is within bounds.
unfoldable pub byte_at : ℕ → Bytes → ℕ
byte_at i [] = 0
byte_at zero (c ∷ cs) = c
byte_at (suc i) (c ∷ cs) = byte_at i cs

-- How many digits stand before the separator or the end; `none` if another byte does.
unfoldable pub scan_digits : Bytes → Option ℕ
scan_digits [] = some 0
scan_digits (c ∷ cs) =
    let more = scan_digits cs in
    if c == soh then some 0 else if is_digit c then (more >>= λ n. some (suc n)) else none

-- The loop over the three digits of the trailer, into a `uint8_t`.
unfoldable pub read_checksum : ℕ → Bytes → Option ℕ
read_checksum got [] = some got
read_checksum got (c ∷ cs) =
    let more = read_checksum ((got * 10 + (c - 48)) % 256) cs in if is_digit c then more else none

-- The comparison of the checksums.
unfoldable pub check_sum : Bytes → ℕ → Option ℕ → FrameStatus
check_sum buf body_end none = malformed
check_sum buf body_end (some got) =
    if got == checksum (take body_end buf)
    then ok (take (body_end + 7) buf) (body_end + 7)
    else malformed

-- From the parsed body length on; the body starts at `start`.
unfoldable pub split_body : Bytes → ℕ → Option ℕ → FrameStatus
split_body buf start none = malformed
split_body buf start (some body_len) =
    let body_end = start + body_len in
    if ltb (2 ^ 20) body_len
    then malformed
    else if ltb (length buf) (body_end + 7)
    then incomplete
    else if not (
        (byte_at body_end buf == 49)
        && (byte_at (body_end + 1) buf == 48)
        && (byte_at (body_end + 2) buf == 61)
        && (byte_at (body_end + 6) buf == soh))
    then malformed
    else check_sum buf body_end (read_checksum 0 (take 3 (drop (body_end + 3) buf)))

-- From the scan of the body length on.
unfoldable pub split_length : Bytes → Option ℕ → FrameStatus
split_length buf none = malformed
split_length buf (some n) =
    if leb (length buf) (12 + n)
    then incomplete
    else split_body buf (12 + n + 1) (from_digits (2 ^ 64 - 1) (take n (drop 12 buf)))

unfoldable pub split_frame : Bytes → FrameStatus
split_frame buf =
    if ltb (length buf) 10
    then incomplete
    else if not (eqb_bytes (take 10 buf) begin_string)
    then malformed
    else if ltb (length buf) 12
    then incomplete
    else if not ((byte_at 10 buf == 57) && (byte_at 11 buf == 61))
    then malformed
    else split_length buf (scan_digits (drop 12 buf))

-- The digits in front of `=`, and what is behind it.
unfoldable pub scan_tag : Bytes → Option (Bytes × Bytes)
scan_tag [] = none
scan_tag (c ∷ cs) =
    let more = scan_tag cs in
    if c == 61
    then some ([], cs)
    else if is_digit c
    then (more >>= λ r. some (c ∷ r.0, r.1))
    else none

-- The bytes in front of the separator, and what is behind it.
unfoldable pub scan_value : Bytes → Option (Bytes × Bytes)
scan_value [] = none
scan_value (c ∷ cs) =
    let more = scan_value cs in
    if c == soh then some ([], cs) else (more >>= λ r. some (c ∷ r.0, r.1))

-- One field, and what is behind it.
unfoldable pub parse_field : Bytes → Option (Field × Bytes)
parse_field cs = do
  t ← scan_tag cs
  tag ← from_digits (2 ^ 31 - 1) t.0
  v ← scan_value t.1
  some (record { tag = tag; value = v.0 }, v.1)

-- The loop of `parse_frame`: the returned flag and the fields written, or `none` out of fuel.
unfoldable pub parse_from : ℕ → Message → Bytes → Option (Bool × Message)
parse_from zero fields cs = none
parse_from (suc fuel) fields [] = some (true, fields)
parse_from (suc fuel) fields (c ∷ cs) = elim (parse_field (c ∷ cs)) [
  | none ↦ some (false, fields)
  | some r ↦ parse_from fuel (fields ++ r.0 ∷ []) r.1
]

unfoldable pub parse_frame : Bytes → Option (Bool × Message)
parse_frame frame = parse_from (length frame + 1) [] frame
