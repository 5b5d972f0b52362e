-- ===== src/Fix/Numbers/Decimal.antt =====
-- The decimal digits that `to_chars` writes are read back by `from_chars`.
use native.Mathlib.Nat.{mod-lt, pow-suc}
use low_latency_hft_matching.Base.{
  ℕ, zero, suc, ◌+◌, ◌-◌, ◌*◌, ◌/◌, ◌%◌, ◌^◌, ◌≤◌, ◌<◌, ◌≡◌, refl, ap, ◌∙◌, [], ◌∷◌, ◌++◌, true,
  false, some, ltb, leb, length, length-append, is_empty, arith, Bool-cases, inl, inr,
}
use low_latency_hft_matching.Fix.Numbers.{
  Bytes, is_digit, leading_digits, digits_value, from_digits, digits, to_chars, zeros, padded,
}

abbrev pub AllDigits : Bytes → Type 0
AllDigits [] = Unit {0}
AllDigits (c ∷ cs) = (is_digit c ≡ true) × AllDigits cs

pub AllDigits-append : (xs ys : Bytes) → AllDigits xs → AllDigits ys → AllDigits (xs ++ ys)
AllDigits-append [] ys h k = k
AllDigits-append (x ∷ xs) ys h k = (h.0, AllDigits-append xs ys h.1 k)

pub leading_digits_all : (xs : Bytes) → AllDigits xs → leading_digits xs ≡ xs
unfolding leading_digits
leading_digits_all [] h = refl
leading_digits_all (x ∷ xs) h = rw (h.0, leading_digits_all xs h.1) refl

digits_value-append :
    (acc : ℕ) (xs : Bytes) (c : ℕ)
    → digits_value acc (xs ++ c ∷ []) ≡ digits_value acc xs * 10 + (c - 48)
unfolding digits_value
digits_value-append acc [] c = refl
digits_value-append acc (x ∷ xs) c = digits_value-append (acc * 10 + (x - 48)) xs c

digit_char : (d : ℕ) → d < 10 → is_digit (48 + d) ≡ true
digit_char d h = ground arith

pub AllDigits-digits : (fuel n : ℕ) → AllDigits (digits fuel n)
unfolding digits
AllDigits-digits zero n = tt
AllDigits-digits (suc fuel) n = elim (Bool-cases (ltb n 10)) [
  | inl one ↦ rw one (digit_char n (ground (arith, one)), tt)
  | inr more ↦ rw more (
      AllDigits-append (digits fuel (n / 10)) _ (AllDigits-digits fuel (n / 10))
        (digit_char (n % 10) (mod-lt n (omega arith)), tt))
]

is_empty-append : (xs : Bytes) (c : ℕ) → is_empty (xs ++ c ∷ []) ≡ false
is_empty-append [] c = refl
is_empty-append (x ∷ xs) c = refl

pub is_empty-digits : (fuel n : ℕ) → is_empty (digits (suc fuel) n) ≡ false
unfolding digits
is_empty-digits fuel n = elim (Bool-cases (ltb n 10)) [
  | inl one ↦ rw one refl
  | inr more ↦ rw more (is_empty-append (digits fuel (n / 10)) _)
]

pub digits_value-digits : (fuel n : ℕ) → n < 10 ^ fuel → digits_value 0 (digits fuel n) ≡ n
unfolding digits digits_value
digits_value-digits zero n h = omega (arith, h)
digits_value-digits (suc fuel) n h = elim (Bool-cases (ltb n 10)) [
  | inl one ↦ rw one (omega arith)
  | inr more ↦ rw more (
      digits_value-append 0 (digits fuel (n / 10)) _
      ∙ omega (arith, digits_value-digits fuel (n / 10) (omega (arith, h, pow-suc 10 fuel))))
]

one_digit : (n : ℕ) → n < 10 ^ 1 → ltb n 10 ≡ true
one_digit n h = ground (arith, h)

length-digits : (fuel k n : ℕ) → n < 10 ^ suc k → length (digits fuel n) ≤ suc k
unfolding digits
length-digits zero k n h = omega arith
length-digits (suc fuel) zero n h = rw (one_digit n h) (omega arith)
length-digits (suc fuel) (suc k) n h = elim (Bool-cases (ltb n 10)) [
  | inl one ↦ rw one (omega arith)
  | inr more ↦ rw more (
      omega (
        arith,
        length-append (digits fuel (n / 10)) ((48 + n % 10) ∷ []),
        length-digits fuel k (n / 10) (omega (arith, h, pow-suc 10 (suc k))),
      ))
]

pub from_digits-to_chars :
    (max n : ℕ) → n < 10 ^ 20 → n ≤ max → from_digits max (to_chars n) ≡ some n
unfolding from_digits
from_digits-to_chars max n h k =
    let small : leb n max ≡ true = ground (arith, k) in
    rw
      (
        leading_digits_all (to_chars n) (AllDigits-digits 20 n),
        is_empty-digits 19 n,
        digits_value-digits 20 n h,
        small,
      )
      refl

length-zeros : (w : ℕ) → length (zeros w) ≡ w
unfolding zeros
length-zeros zero = refl
length-zeros (suc w) = ap suc (length-zeros w)

AllDigits-zeros : (w : ℕ) → AllDigits (zeros w)
unfolding zeros
AllDigits-zeros zero = tt
AllDigits-zeros (suc w) = (refl, AllDigits-zeros w)

digits_value-zeros : (w : ℕ) (xs : Bytes) → digits_value 0 (zeros w ++ xs) ≡ digits_value 0 xs
unfolding zeros digits_value
digits_value-zeros zero xs = refl
digits_value-zeros (suc w) xs = digits_value-zeros w xs

pub length-padded : (w n : ℕ) → n < 10 ^ suc w → length (padded (suc w) n) ≡ suc w
length-padded w n h =
    let k = length-digits 20 w n h in
    length-append (zeros (suc w - length (to_chars n))) (to_chars n)
    ∙ omega (arith, k, length-zeros (suc w - length (to_chars n)))

pub AllDigits-padded : (w n : ℕ) → AllDigits (padded w n)
AllDigits-padded w n =
    AllDigits-append _ (to_chars n) (AllDigits-zeros (w - length (to_chars n)))
      (AllDigits-digits 20 n)

pub digits_value-padded : (w n : ℕ) → n < 10 ^ 20 → digits_value 0 (padded w n) ≡ n
digits_value-padded w n h =
    digits_value-zeros (w - length (to_chars n)) (to_chars n) ∙ digits_value-digits 20 n h
