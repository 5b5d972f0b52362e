-- ===== src/Scan/Written.antt =====
-- Numbers that the program has written are read back.
use low_latency_hft_matching.Base.{
  ℕ, suc, ◌-◌, ◌^◌, ◌<◌, ◌≤◌, ◌≡◌, refl, ap, ◌∙◌, ℤ, pos, negsuc, ◌-ℤ◌, [], ◌∷◌, ◌++◌, true, false,
  some, ◌==◌, is_empty, drop-append, arith, int_laws, ◌>>=◌,
}
use low_latency_hft_matching.Fix.Numbers.{Bytes, is_digit, leading_digits, from_digits, to_chars}
use low_latency_hft_matching.Fix.Numbers.Decimal.{
  AllDigits, AllDigits-digits, is_empty-digits, leading_digits_all, from_digits-to_chars,
}
use low_latency_hft_matching.Fix.Building.{int_chars}
use low_latency_hft_matching.Fix.Lookups.{IsInt64}
use low_latency_hft_matching.Scan.{
  is_space, skip_space, unsigned_at, negative_at, positive_at, signed_at, scan_signed,
  sign_unsigned_at, scan_unsigned,
}

-- No digit comes next.
abbrev pub EndsNumber : Bytes → Type 0
EndsNumber [] = Unit {0}
EndsNumber (c ∷ cs) = is_digit c ≡ false

leading_digits-append :
    (xs ys : Bytes) → AllDigits xs → EndsNumber ys → leading_digits (xs ++ ys) ≡ xs
unfolding leading_digits
leading_digits-append [] [] h e = refl
leading_digits-append [] (y ∷ ys) h e = rw e refl
leading_digits-append (x ∷ xs) ys h e =
    rw h.0 (ap (λ zs. x ∷ zs) (leading_digits-append xs ys h.1 e))

from_digits-append :
    (max : ℕ) (xs ys : Bytes)
    → AllDigits xs
    → EndsNumber ys
    → from_digits max (xs ++ ys) ≡ from_digits max xs
unfolding from_digits
from_digits-append max xs ys h e =
    rw (leading_digits-append xs ys h e, leading_digits_all xs h) refl

pub unsigned_at-to_chars :
    (max n : ℕ) (ys : Bytes)
    → n ≤ max
    → max < 10 ^ 20
    → EndsNumber ys
    → unsigned_at max (to_chars n ++ ys) ≡ some (n, ys)
unfolding unsigned_at
unsigned_at-to_chars max n ys h k e =
    let d = AllDigits-digits 20 n in
    rw
      (
        from_digits-append max (to_chars n) ys d e,
        leading_digits-append (to_chars n) ys d e,
        from_digits-to_chars max n (omega arith) h,
        drop-append (to_chars n) ys,
      )
      refl

-- A digit is neither a space nor a sign.
digit_first :
    (c : ℕ) → is_digit c ≡ true → (is_space c ≡ false) × ((c == 45) ≡ false) × ((c == 43) ≡ false)
digit_first c h = (ground arith, ground arith, ground arith)

-- The digits have a first one.
first_digit :
    (xs : Bytes)
    → is_empty xs ≡ false
    → AllDigits xs
    → (c : ℕ) × (cs : Bytes) × (xs ≡ c ∷ cs) × (is_digit c ≡ true)
first_digit [] e h = cc
first_digit (c ∷ cs) e h = (c, cs, refl, h.0)

scan_signed_plain :
    (xs ys : Bytes)
    → is_empty xs ≡ false
    → AllDigits xs
    → scan_signed (xs ++ ys) ≡ positive_at (xs ++ ys)
unfolding scan_signed skip_space signed_at
scan_signed_plain xs ys e h =
    let (c, cs, split, d) = first_digit xs e h in
    let (s, m, p) = digit_first c d in rw split (rw (s, m, p) refl)

scan_unsigned_plain :
    (max : ℕ) (xs ys : Bytes)
    → is_empty xs ≡ false
    → AllDigits xs
    → scan_unsigned max (xs ++ ys) ≡ unsigned_at max (xs ++ ys)
unfolding scan_unsigned skip_space sign_unsigned_at
scan_unsigned_plain max xs ys e h =
    let (c, cs, split, d) = first_digit xs e h in
    let (s, m, p) = digit_first c d in rw split (rw (s, m, p) refl)

minus : (n : ℕ) → pos 0 -ℤ pos (suc n) ≡ negsuc n
minus n = omega int_laws

pub scan_unsigned-to_chars :
    (max n : ℕ) (ys : Bytes)
    → n ≤ max
    → max < 10 ^ 20
    → EndsNumber ys
    → scan_unsigned max (to_chars n ++ ys) ≡ some (n, ys)
scan_unsigned-to_chars max n ys h k e =
    scan_unsigned_plain max (to_chars n) ys (is_empty-digits 19 n) (AllDigits-digits 20 n)
    ∙ unsigned_at-to_chars max n ys h k e

pub scan_signed-int_chars :
    (v : ℤ) (ys : Bytes)
    → IsInt64 v
    → EndsNumber ys
    → scan_signed (int_chars v ++ ys) ≡ some (v, ys)
unfolding positive_at scan_signed skip_space signed_at negative_at
scan_signed-int_chars (pos n) ys h e =
    scan_signed_plain (to_chars n) ys (is_empty-digits 19 n) (AllDigits-digits 20 n)
    ∙ ap (λ o. o >>= λ (r : ℕ × Bytes). some (pos r.0, r.1))
        (unsigned_at-to_chars (2 ^ 63 - 1) n ys (omega (arith, h.0)) (omega arith) e)
scan_signed-int_chars (negsuc n) ys h e =
    ap (λ o. o >>= λ (r : ℕ × Bytes). some (pos 0 -ℤ pos r.0, r.1))
      (unsigned_at-to_chars (2 ^ 63) (suc n) ys (omega (arith, h.1)) (omega arith) e)
    ∙ ap (λ x. some (x, ys)) (minus n)
