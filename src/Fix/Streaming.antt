-- ===== src/Fix/Streaming.antt =====
-- `split_frame` and `parse_frame` of mvp/src/fix/parser.cpp on the bytes of a stream.
use low_latency_hft_matching.Base.{
  ℕ, zero, suc, ◌+◌, ◌-◌, ◌^◌, ◌≤◌, ◌<◌, ◌≡◌, refl, [], ◌∷◌, ◌++◌, Bool, true, false, ◌&&◌, Option,
  none, some, ltb, leb, ◌==◌, length, length-append, take, drop, take_more, drop_more, arith,
  Bool-cases, ◌⊎◌, inl, inr, length-drop,
}
use low_latency_hft_matching.Fix.{soh}
use low_latency_hft_matching.Fix.Numbers.{Bytes, is_digit, from_digits}
use low_latency_hft_matching.Fix.Framing.{
  FrameStatus, ok, incomplete, malformed, begin_string, eqb_bytes, byte_at, scan_digits,
  read_checksum, check_sum, split_body, split_length, split_frame,
}

abbrev pub is_decided : FrameStatus → Bool
is_decided (ok _ _) = true
is_decided incomplete = false
is_decided malformed = true

byte_at-append : (xs ys : Bytes) (i : ℕ) → i < length xs → byte_at i (xs ++ ys) ≡ byte_at i xs
unfolding byte_at
byte_at-append [] ys i h = absurd (omega (arith, h))
byte_at-append (x ∷ xs) ys zero h = refl
byte_at-append (x ∷ xs) ys (suc i) h = byte_at-append xs ys i (omega (arith, h))

short_now : (n : ℕ) (xs ys : Bytes) → n ≤ length xs → ltb (length (xs ++ ys)) n ≡ false
short_now n xs ys h = ground (arith, length-append xs ys, h)

module _ (more : Bytes) where
  check_sum-more :
      (buf : Bytes) (e : ℕ) (o : Option ℕ)
      → e + 7 ≤ length buf
      → check_sum (buf ++ more) e o ≡ check_sum buf e o
  unfolding check_sum
  check_sum-more buf e none h = refl
  check_sum-more buf e (some got) h =
      rw (take_more e buf more (omega (arith, h)), take_more (e + 7) buf more h) refl

  split_body-more :
      (buf : Bytes) (start : ℕ) (o : Option ℕ)
      → is_decided (split_body buf start o) ≡ true
      → split_body (buf ++ more) start o ≡ split_body buf start o
  unfolding split_body
  split_body-more buf start none = λ h. refl
  split_body-more buf start (some n) =
      let e = start + n in
      elim (Bool-cases (ltb (2 ^ 20) n)) [
        | inl large ↦ rw large (λ h. refl)
        | inr small ↦ elim (Bool-cases (ltb (length buf) (e + 7))) [
          | inl short ↦ rw (small, short) (λ h. cc)
          | inr long ↦
              let fits : e + 7 ≤ length buf = ground (arith, long) in
              let b0 = byte_at-append buf more e (omega (arith, fits)) in
              let b1 = byte_at-append buf more (e + 1) (omega (arith, fits)) in
              let b2 = byte_at-append buf more (e + 2) (omega (arith, fits)) in
              let b6 = byte_at-append buf more (e + 6) (omega (arith, fits)) in
              let d = drop_more (e + 3) buf more (omega (arith, fits)) in
              let l = length-drop (e + 3) buf (omega (arith, fits)) in
              let t = take_more 3 (drop (e + 3) buf) more (omega (arith, l, fits)) in
              rw
                (
                  small,
                  long,
                  short_now (e + 7) buf more fits,
                  b0,
                  b1,
                  b2,
                  b6,
                  d,
                  t,
                  check_sum-more buf e (read_checksum 0 (take 3 (drop (e + 3) buf))) fits,
                )
                (λ h. refl)
        ]
      ]

  -- Either every byte so far is a digit, or the scan has found its end.
  scan_digits-more :
      (xs : Bytes)
      → (scan_digits xs ≡ some (length xs)) ⊎ (scan_digits (xs ++ more) ≡ scan_digits xs)
  unfolding scan_digits
  scan_digits-more [] = inl refl
  scan_digits-more (c ∷ xs) = elim (Bool-cases (c == soh)) [
    | inl end ↦ rw end (inr refl)
    | inr on ↦ elim (Bool-cases (is_digit c)) [
      | inl digit ↦ elim (scan_digits-more xs) [
        | inl e ↦ rw (on, digit, e) (inl refl)
        | inr e ↦ rw (on, digit, e) (inr refl)
      ]
      | inr other ↦ rw (on, other) (inr refl)
    ]
  ]

  split_length-more :
      (buf : Bytes) (o : Option ℕ)
      → 12 ≤ length buf
      → is_decided (split_length buf o) ≡ true
      → split_length (buf ++ more) o ≡ split_length buf o
  unfolding split_length
  split_length-more buf none h = λ d. refl
  split_length-more buf (some n) h = elim (Bool-cases (leb (length buf) (12 + n))) [
    | inl short ↦ rw short (λ d. cc)
    | inr long ↦
        let l = length-drop 12 buf h in
        let rest : n ≤ length (drop 12 buf) = ground (arith, l, long) in
        let longer : leb (length (buf ++ more)) (12 + n) ≡ false =
          ground (arith, length-append buf more, long) in
        rw (long, longer, drop_more 12 buf more h, take_more n (drop 12 buf) more rest)
          (split_body-more buf (12 + n + 1) (from_digits (2 ^ 64 - 1) (take n (drop 12 buf))))
  ]

  -- All digits so far: the length is not complete.
  split_length_all :
      (buf : Bytes) → 12 ≤ length buf → split_length buf (some (length (drop 12 buf))) ≡ incomplete
  unfolding split_length
  split_length_all buf h =
      let l = length-drop 12 buf h in
      let short : leb (length buf) (12 + length (drop 12 buf)) ≡ true = ground (arith, l) in
      rw short refl

  split_scan_more :
      (buf : Bytes)
      → 12 ≤ length buf
      → is_decided (split_length buf (scan_digits (drop 12 buf))) ≡ true
      → split_length (buf ++ more) (scan_digits (drop 12 (buf ++ more)))
        ≡ split_length buf (scan_digits (drop 12 buf))
  split_scan_more buf h = elim (scan_digits-more (drop 12 buf)) [
    | inl e ↦ rw (e, split_length_all buf h) (λ d. cc)
    | inr e ↦ rw (drop_more 12 buf more h, e) (split_length-more buf (scan_digits (drop 12 buf)) h)
  ]

  -- What `split_frame` decides on a buffer, a frame or garbage, no further bytes change: only
  -- `Incomplete` may.
  pub split_frame-more :
      (buf : Bytes)
      → is_decided (split_frame buf) ≡ true
      → split_frame (buf ++ more) ≡ split_frame buf
  unfolding split_frame
  split_frame-more buf = elim (Bool-cases (ltb (length buf) 10)) [
    | inl short ↦ rw short (λ d. cc)
    | inr ten ↦
        let l10 : 10 ≤ length buf = ground (arith, ten) in
        rw (ten, short_now 10 buf more l10, take_more 10 buf more l10)
          (elim (Bool-cases (eqb_bytes (take 10 buf) begin_string)) [
            | inr other ↦ rw other (λ d. refl)
            | inl fix ↦ elim (Bool-cases (ltb (length buf) 12)) [
              | inl short ↦ rw (fix, short) (λ d. cc)
              | inr twelve ↦
                  let l12 : 12 ≤ length buf = ground (arith, twelve) in
                  rw
                    (
                      fix,
                      twelve,
                      short_now 12 buf more l12,
                      byte_at-append buf more 10 (omega (arith, l12)),
                      byte_at-append buf more 11 (omega (arith, l12)),
                    )
                    (elim (Bool-cases ((byte_at 10 buf == 57) && (byte_at 11 buf == 61))) [
                      | inl nine ↦ rw nine (split_scan_more buf l12)
                      | inr other ↦ rw other (λ d. refl)
                    ])
            ]
          ])
  ]
