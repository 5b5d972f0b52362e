-- ===== src/Fix/Frames.antt =====
-- `split_frame` of mvp/src/fix/parser.cpp finds the frame in front of a stream.
use low_latency_hft_matching.Base.{
  ℕ, zero, suc, ◌+◌, ◌-◌, ◌*◌, ◌%◌, ◌^◌, ◌≤◌, ◌<◌, ◌≡◌, refl, ap, sym, ◌∙◌, [], ◌∷◌, ◌++◌, true,
  false, some, ltb, leb, ◌==◌, length, length-append, take, drop, take-append, append_assoc,
  is_empty, arith,
}
use low_latency_hft_matching.Fix.{soh}
use low_latency_hft_matching.Fix.Numbers.{Bytes, digits_value, from_digits}
use low_latency_hft_matching.Fix.Numbers.Decimal.{AllDigits, leading_digits_all}
use low_latency_hft_matching.Fix.Framing.{
  ok, checksum, eqb_bytes, byte_at, scan_digits, read_checksum, check_sum, split_body, split_length,
  split_frame,
}
use low_latency_hft_matching.Fix.Building.{header}

not_shorter : (a b : ℕ) → b ≤ a → ltb a b ≡ false
not_shorter a b h = ground arith

scan_digits-append :
    (ds ys : Bytes) → AllDigits ds → scan_digits (ds ++ soh ∷ ys) ≡ some (length ds)
unfolding scan_digits
scan_digits-append [] ys h = refl
scan_digits-append (d ∷ ds) ys h =
    let ne : (d == soh) ≡ false = ground (arith, h.0) in
    rw (ne, h.0, scan_digits-append ds ys h.1) refl

byte_at_behind : (xs ys : Bytes) (i k : ℕ) → k ≡ length xs + i → byte_at k (xs ++ ys) ≡ byte_at i ys
unfolding byte_at
byte_at_behind [] ys i k e = ap (λ n. byte_at n ys) (e ∙ omega arith)
byte_at_behind (x ∷ xs) ys i zero e = absurd (omega (arith, e))
byte_at_behind (x ∷ xs) ys i (suc k) e = byte_at_behind xs ys i k (omega (arith, e))

drop_behind : (xs ys : Bytes) (i k : ℕ) → k ≡ length xs + i → drop k (xs ++ ys) ≡ drop i ys
drop_behind [] ys i k e = ap (λ n. drop n ys) (e ∙ omega arith)
drop_behind (x ∷ xs) ys i zero e = absurd (omega (arith, e))
drop_behind (x ∷ xs) ys i (suc k) e = drop_behind xs ys i k (omega (arith, e))

take_front : (xs ys : Bytes) (k : ℕ) → k ≡ length xs → take k (xs ++ ys) ≡ xs
take_front xs ys k e = ap (λ n. take n (xs ++ ys)) e ∙ take-append xs ys

read_checksum_lem :
    (acc got : ℕ) (cs : Bytes)
    → AllDigits cs
    → got ≡ acc % 256
    → read_checksum got cs ≡ some (digits_value acc cs % 256)
unfolding read_checksum digits_value
read_checksum_lem acc got [] h e = ap some e
read_checksum_lem acc got (c ∷ cs) h e =
    rw h.0 (read_checksum_lem (acc * 10 + (c - 48)) _ cs h.1 (omega (arith, e)))

same : (a b : ℕ) → a ≡ b → (a == b) ≡ true
same a b h = ground arith

check_sum_lem :
    (buf frame : Bytes) (e got : ℕ)
    → got ≡ checksum (take e buf)
    → take (e + 7) buf ≡ frame
    → e + 7 ≡ length frame
    → check_sum buf e (some got) ≡ ok frame (length frame)
unfolding check_sum
check_sum_lem buf frame e got sum front len =
    rw (same got (checksum (take e buf)) sum, front, len) refl

-- A trailer with three digits.
abbrev pub trailer : Bytes → Bytes
trailer cs = 49 ∷ 48 ∷ 61 ∷ cs ++ soh ∷ []

module _ (pre more : Bytes) (a b c : ℕ) where
  abbrev digits_of : Bytes
  digits_of = a ∷ b ∷ c ∷ []

  split_body_lem :
      (start body_len : ℕ)
      → length pre ≡ start + body_len
      → body_len ≤ 2 ^ 20
      → AllDigits digits_of
      → digits_value 0 digits_of % 256 ≡ checksum pre
      → split_body (pre ++ (trailer digits_of ++ more)) start (some body_len)
        ≡ ok (pre ++ trailer digits_of) (length (pre ++ trailer digits_of))
  unfolding split_body byte_at
  split_body_lem start body_len at small h sum =
      let buf = pre ++ (trailer digits_of ++ more) in
      let e = start + body_len in
      let len : length (pre ++ trailer digits_of) ≡ e + 7 =
        length-append pre (trailer digits_of) ∙ omega (arith, at) in
      let all : length buf ≡ e + 7 + length more =
        length-append pre (trailer digits_of ++ more) ∙ omega (arith, at) in
      let b0 = byte_at_behind pre (trailer digits_of ++ more) 0 e (omega (arith, at)) in
      let b1 = byte_at_behind pre (trailer digits_of ++ more) 1 (e + 1) (omega (arith, at)) in
      let b2 = byte_at_behind pre (trailer digits_of ++ more) 2 (e + 2) (omega (arith, at)) in
      let b6 = byte_at_behind pre (trailer digits_of ++ more) 6 (e + 6) (omega (arith, at)) in
      let d3 = drop_behind pre (trailer digits_of ++ more) 3 (e + 3) (omega (arith, at)) in
      rw
        (
          not_shorter (2 ^ 20) body_len small,
          not_shorter (length buf) (e + 7) (omega (arith, all)),
          b0,
          b1,
          b2,
          b6,
          d3,
        )
        (rw (read_checksum_lem 0 0 digits_of h refl) (
          check_sum_lem buf (pre ++ trailer digits_of) e (digits_value 0 digits_of % 256)
            (sum ∙ ap checksum (sym (take_front pre (trailer digits_of ++ more) e (sym at))))
            (ap (take (e + 7)) (sym (append_assoc pre (trailer digits_of) more))
              ∙ take_front (pre ++ trailer digits_of) more (e + 7) (sym len))
            (sym len)))

from_digits_lem :
    (max v : ℕ) (ds : Bytes)
    → AllDigits ds
    → is_empty ds ≡ false
    → digits_value 0 ds ≡ v
    → v ≤ max
    → from_digits max ds ≡ some v
unfolding from_digits
from_digits_lem max v ds h some_digit value small =
    let fits : leb v max ≡ true = ground (arith, small) in
    rw (leading_digits_all ds h, some_digit, value, fits) refl

split_length_lem :
    (buf ds rest : Bytes) (v : ℕ)
    → drop 12 buf ≡ ds ++ soh ∷ rest
    → 12 + length ds < length buf
    → from_digits (2 ^ 64 - 1) ds ≡ some v
    → split_length buf (some (length ds)) ≡ split_body buf (12 + length ds + 1) (some v)
unfolding split_length
split_length_lem buf ds rest v at long value =
    let more : leb (length buf) (12 + length ds) ≡ false = ground (arith, long) in
    rw (more, at, take-append ds (soh ∷ rest), value) refl

-- The bytes of a frame up to the trailer.
abbrev pub front : Bytes → Bytes → Bytes
front ds body = header ++ (ds ++ soh ∷ body)

pub split_frame_lem :
    (ds body more : Bytes) (a b c : ℕ)
    → AllDigits ds
    → is_empty ds ≡ false
    → digits_value 0 ds ≡ length body
    → length body ≤ 2 ^ 20
    → AllDigits (a ∷ b ∷ c ∷ [])
    → digits_value 0 (a ∷ b ∷ c ∷ []) % 256 ≡ checksum (front ds body)
    → let frame = front ds body ++ trailer (a ∷ b ∷ c ∷ []) in
      split_frame (front ds body ++ (trailer (a ∷ b ∷ c ∷ []) ++ more)) ≡ ok frame (length frame)
unfolding split_frame eqb_bytes byte_at
split_frame_lem ds body more a b c dh some_digit value small th sum =
    let tail = trailer (a ∷ b ∷ c ∷ []) ++ more in
    let buf = front ds body ++ tail in
    let e : (ds ++ soh ∷ body) ++ tail ≡ ds ++ soh ∷ (body ++ tail) =
      append_assoc ds (soh ∷ body) tail in
    let n : length ((ds ++ soh ∷ body) ++ tail) ≡ length ds + suc (length body) + length tail =
      length-append (ds ++ soh ∷ body) tail ∙ omega (arith, length-append ds (soh ∷ body)) in
    let t10 : ltb (length buf) 10 ≡ false = not_shorter _ 10 (omega arith) in
    let t12 : ltb (length buf) 12 ≡ false = not_shorter _ 12 (omega arith) in
    let len : 12 + length ds < length buf = omega (arith, n) in
    let at : length (front ds body) ≡ 12 + length ds + 1 + length body =
      omega (arith, length-append ds (soh ∷ body)) in
    rw (t10, t12)
      (rw (ap scan_digits e ∙ scan_digits-append ds (body ++ tail) dh) (
        split_length_lem buf ds (body ++ tail) (length body) e len
          (from_digits_lem (2 ^ 64 - 1) (length body) ds dh some_digit value (omega (arith, small)))
        ∙ split_body_lem (front ds body) more a b c (12 + length ds + 1) (length body) at small th
            sum))
