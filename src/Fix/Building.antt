-- ===== src/Fix/Building.antt =====
-- The `Builder` of mvp/src/fix/parser.cpp.
use low_latency_hft_matching.Base.{
  ℕ, ◌+◌, ◌-◌, ℤ, pos, negsuc, [], ◌∷◌, ◌++◌, suc, length, take, drop, ltb, if◌then◌else◌,
}
use low_latency_hft_matching.Fix.{soh}
use low_latency_hft_matching.Fix.Numbers.{Bytes, to_chars, padded}
use low_latency_hft_matching.Fix.Framing.{begin_string, checksum}

pub record Builder : Type 0 where
  pub buf : Bytes
  pub body_start : ℕ
  pub body_len_slot : ℕ

-- `tag=value` and a separator.
abbrev pub wire_field : ℕ → Bytes → Bytes
wire_field tag v = to_chars tag ++ 61 ∷ v ++ soh ∷ []

unfoldable pub add_str : ℕ → Bytes → Builder → Builder
add_str tag v b = record b { buf = b.buf ++ wire_field tag v }

-- `std::to_chars` of a `long long`.
abbrev pub int_chars : ℤ → Bytes
int_chars (pos n) = to_chars n
int_chars (negsuc n) = 45 ∷ to_chars (suc n)

unfoldable pub add_int : ℕ → ℤ → Builder → Builder
add_int tag v b = record b { buf = b.buf ++ wire_field tag (int_chars v) }

unfoldable pub add_char : ℕ → ℕ → Builder → Builder
add_char tag c b = record b { buf = b.buf ++ wire_field tag (c ∷ []) }

-- Up to the reserved digits of the body length.
abbrev pub header : Bytes
header = begin_string ++ 57 ∷ 61 ∷ []

unfoldable pub begin : ℕ → Bytes → Bytes → ℕ → Builder
unfolding add_char add_str add_int
begin msg_type sender_comp target_comp seq_num =
    let start : Builder = record {
      buf = header ++ 48 ∷ 48 ∷ 48 ∷ 48 ∷ 48 ∷ 48 ∷ soh ∷ [];
      body_start = 19;
      body_len_slot = 12;
    } in
    add_int 34 (pos seq_num)
      (add_str 56 target_comp (add_str 49 sender_comp (add_char 35 msg_type start)))

-- `memcpy` of six bytes into the buffer.
abbrev pub patch : ℕ → Bytes → Bytes → Bytes
patch slot v buf = take slot buf ++ take 6 v ++ drop (slot + 6) buf

-- The frame, with the length patched in and the trailer behind.
unfoldable pub finalize : Builder → Bytes
finalize b =
    let body = patch b.body_len_slot (padded 6 (length b.buf - b.body_start)) b.buf in
    body ++ 49 ∷ 48 ∷ 61 ∷ padded 3 (checksum body) ++ soh ∷ []

-- What is read of `vbuf` for a text of this length: where its 64 bytes do not hold the text and a NUL,
-- the 63 bytes that `snprintf` wrote, the NUL, and the memory behind `vbuf`.
unfoldable pub vbuf_text : (ℕ → Bytes) → Bytes → Bytes
vbuf_text behind text =
    if ltb (length text) 64 then text else take 63 text ++ 0 ∷ behind (length text - 64)

-- `print v decimals` stands for what `%.*f` gives, and `behind n` for the n bytes behind `vbuf`.
unfoldable pub add_double {ℓ} :
    {D : Type ℓ} → (D → ℕ → Bytes) → (ℕ → Bytes) → ℕ → D → ℕ → Builder → Builder
add_double print behind tag v decimals b = record b {
  buf = b.buf ++ wire_field tag (vbuf_text behind (print v decimals));
}
