-- ===== src/Fix/Consumed.antt =====
-- How much of the buffer `split_frame` of mvp/src/fix/parser.cpp consumes.
use low_latency_hft_matching.Base.{
  ℕ, ◌+◌, ◌-◌, ◌^◌, ◌≤◌, ◌<◌, ◌≡◌, ◌&&◌, Option, none, some, ltb, leb, ◌==◌, length, take, drop,
  arith, subst, Bool-cases, inl, inr,
}
use low_latency_hft_matching.Fix.{soh}
use low_latency_hft_matching.Fix.Numbers.{Bytes, from_digits}
use low_latency_hft_matching.Fix.Framing.{
  FrameStatus, ok, incomplete, malformed, begin_string, eqb_bytes, byte_at, scan_digits, checksum,
  read_checksum, check_sum, split_body, split_length, split_frame,
}

-- A frame is some bytes, and no more than there are.
abbrev pub Within : ℕ → FrameStatus → Type 0
Within n (ok frame consumed) = (0 < consumed) × (consumed ≤ n)
Within n incomplete = Unit {0}
Within n malformed = Unit {0}

check_sum-Within :
    (buf : Bytes) (e : ℕ) (o : Option ℕ)
    → e + 7 ≤ length buf
    → Within (length buf) (check_sum buf e o)
unfolding check_sum
check_sum-Within buf e none h = tt
check_sum-Within buf e (some got) h = elim (Bool-cases (got == checksum (take e buf))) [
  | inl same ↦ rw same (omega arith, h)
  | inr other ↦ rw other tt
]

split_body-Within :
    (buf : Bytes) (start : ℕ) (o : Option ℕ) → Within (length buf) (split_body buf start o)
unfolding split_body
split_body-Within buf start none = tt
split_body-Within buf start (some n) =
    let e = start + n in
    let tail =
      (byte_at e buf == 49)
      && (byte_at (e + 1) buf == 48)
      && (byte_at (e + 2) buf == 61)
      && (byte_at (e + 6) buf == soh) in
    elim (Bool-cases (ltb (2 ^ 20) n)) [
      | inl large ↦ rw large tt
      | inr small ↦ elim (Bool-cases (ltb (length buf) (e + 7))) [
        | inl short ↦ rw (small, short) tt
        | inr long ↦ elim (Bool-cases tail) [
          | inr other ↦ rw (small, long, other) tt
          | inl fits ↦
              rw (small, long, fits)
                (check_sum-Within buf e (read_checksum 0 (take 3 (drop (e + 3) buf)))
                  (ground (arith, long)))
        ]
      ]
    ]

split_length-Within : (buf : Bytes) (o : Option ℕ) → Within (length buf) (split_length buf o)
unfolding split_length
split_length-Within buf none = tt
split_length-Within buf (some n) = elim (Bool-cases (leb (length buf) (12 + n))) [
  | inl short ↦ rw short tt
  | inr long ↦
      rw long (split_body-Within buf (12 + n + 1) (from_digits (2 ^ 64 - 1) (take n (drop 12 buf))))
]

pub split_frame-Within : (buf : Bytes) → Within (length buf) (split_frame buf)
unfolding split_frame
split_frame-Within buf = elim (Bool-cases (ltb (length buf) 10)) [
  | inl short ↦ rw short tt
  | inr ten ↦ elim (Bool-cases (eqb_bytes (take 10 buf) begin_string)) [
    | inr other ↦ rw (ten, other) tt
    | inl fix ↦ elim (Bool-cases (ltb (length buf) 12)) [
      | inl short ↦ rw (ten, fix, short) tt
      | inr twelve ↦ elim (Bool-cases ((byte_at 10 buf == 57) && (byte_at 11 buf == 61))) [
        | inr other ↦ rw (ten, fix, twelve, other) tt
        | inl nine ↦
            rw (ten, fix, twelve, nine) (split_length-Within buf (scan_digits (drop 12 buf)))
      ]
    ]
  ]
]

pub consumed-Within :
    (buf frame : Bytes) (n : ℕ) → split_frame buf ≡ ok frame n → (0 < n) × (n ≤ length buf)
consumed-Within buf frame n e = subst (Within (length buf)) e (split_frame-Within buf)
