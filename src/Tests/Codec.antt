-- ===== src/Tests/Codec.antt =====
-- Runs of the FIX codec.
use low_latency_hft_matching.Base.{
  ℕ, ◌≡◌, refl, pos, negsuc, [], ◌∷◌, ◌++◌, true, some, arith, length,
}
use low_latency_hft_matching.Fix.{Field, Message, has, get_int}
use low_latency_hft_matching.Fix.Numbers.{Bytes, digits, from_digits, leading_digits, digits_value}
use low_latency_hft_matching.Fix.Framing.{
  ok, checksum, sum_bytes, split_frame, split_length, split_body, check_sum, eqb_bytes, byte_at,
  scan_digits, read_checksum, parse_frame,
}
use low_latency_hft_matching.Fix.Building.{begin, finalize}
use low_latency_hft_matching.Fix.Messages.{adds_char, add_all, framed, finalize-parse_frame}
use low_latency_hft_matching.Fix.Streaming.{split_frame-more}
use low_latency_hft_matching.Fix.Lookups.{get_int-int_chars}

abbrev field : ℕ → Bytes → Field
field tag value = record { tag = tag; value = value }

-- An order from H to T, the seventh message, on side 1.
abbrev order_fields : Message
order_fields =
    field 35 (68 ∷ [])
    ∷ field 49 (72 ∷ [])
    ∷ field 56 (84 ∷ [])
    ∷ field 34 (55 ∷ [])
    ∷ field 54 (49 ∷ [])
    ∷ []

finalize-parse_frame_example :
    (split_frame
        (finalize (add_all (adds_char 54 49 ∷ []) (begin 68 (72 ∷ []) (84 ∷ []) 7)) ++ 56 ∷ 61 ∷ [])
      ≡ ok
          (finalize (add_all (adds_char 54 49 ∷ []) (begin 68 (72 ∷ []) (84 ∷ []) 7)))
          (length (finalize (add_all (adds_char 54 49 ∷ []) (begin 68 (72 ∷ []) (84 ∷ []) 7)))))
    × (parse_frame (finalize (add_all (adds_char 54 49 ∷ []) (begin 68 (72 ∷ []) (84 ∷ []) 7)))
        ≡ some (true, framed order_fields))
unfolding digits
finalize-parse_frame_example =
    finalize-parse_frame 68 (72 ∷ []) (84 ∷ []) 7 (adds_char 54 49 ∷ []) (56 ∷ 61 ∷ [])
      (omega arith)
      (
        (omega arith, (refl, tt)),
        (
          (omega arith, (refl, tt)),
          ((omega arith, (refl, tt)), ((omega arith, (refl, tt)), ((omega arith, (refl, tt)), tt))),
        ),
      )

-- A heartbeat whose checksum is one too large stays malformed.
abbrev bad : Bytes
bad =
    56 ∷ 61 ∷ 70 ∷ 73 ∷ 88 ∷ 46 ∷ 52 ∷ 46 ∷ 52 ∷ 1 ∷ 57 ∷ 61 ∷ 48 ∷ 1 ∷ 49 ∷ 48 ∷ 61 ∷ 48 ∷ 48 ∷ 48
    ∷ 1 ∷ []

split_frame-more_example : split_frame (bad ++ 7 ∷ 7 ∷ []) ≡ split_frame bad
unfolding split_frame split_length split_body check_sum eqb_bytes byte_at scan_digits read_checksum
    checksum sum_bytes from_digits leading_digits digits_value
split_frame-more_example = split_frame-more (7 ∷ 7 ∷ []) bad refl

get_int-int_chars_example :
    get_int 38 (pos 1) (order_fields ++ field 38 (45 ∷ 49 ∷ 50 ∷ []) ∷ field 38 (49 ∷ []) ∷ [])
    ≡ negsuc 11
unfolding digits has
get_int-int_chars_example =
    get_int-int_chars 38 (negsuc 11) (pos 1) order_fields (field 38 (49 ∷ []) ∷ []) refl
      (omega arith, omega arith)
