-- ===== src/Fix/Numbers.antt =====
-- The decimal numbers of the wire: `std::to_chars`, `std::from_chars` and the padded formats that
-- mvp/src/fix/parser.cpp uses.
pub mod Decimal
use low_latency_hft_matching.Base.{
  ℕ, zero, suc, ◌+◌, ◌-◌, ◌*◌, ◌/◌, ◌%◌, ◌^◌, ◌≡◌, ℤ, pos, ◌-ℤ◌, List, [], ◌∷◌, ◌++◌, Bool, ◌&&◌,
  Option, none, some, ltb, leb, ◌==◌, if◌then◌else◌, length, is_empty,
}

abbrev pub Bytes : Type 0
Bytes = List ℕ

abbrev pub is_digit : ℕ → Bool
is_digit c = leb 48 c && leb c 57

-- The longest prefix of digits.
unfoldable pub leading_digits : Bytes → Bytes
leading_digits [] = []
leading_digits (c ∷ cs) = if is_digit c then c ∷ leading_digits cs else []

unfoldable pub digits_value : ℕ → Bytes → ℕ
digits_value acc [] = acc
digits_value acc (c ∷ cs) = digits_value (acc * 10 + (c - 48)) cs

-- `std::from_chars` into a type with this greatest value, where no sign is in front.
unfoldable pub from_digits : ℕ → Bytes → Option ℕ
from_digits max cs =
    let value = digits_value 0 (leading_digits cs) in
    if is_empty (leading_digits cs) then none else if leb value max then some value else none

-- `std::from_chars` into a `long long`.
unfoldable pub from_chars : Bytes → Option ℤ
from_chars [] = none
from_chars (c ∷ cs) =
    if c == 45
    then elim (from_digits (2 ^ 63) cs) [ none ↦ none | some n ↦ some (pos 0 -ℤ pos n) ]
    else elim (from_digits (2 ^ 63 - 1) (c ∷ cs)) [ none ↦ none | some n ↦ some (pos n) ]

-- The digits of a number, on fuel for the number of digits.
unfoldable pub digits : ℕ → ℕ → Bytes
digits zero n = []
digits (suc fuel) n =
    let front = digits fuel (n / 10) in
    if ltb n 10 then (48 + n) ∷ [] else front ++ (48 + n % 10) ∷ []

-- `std::to_chars` of a number below 2 ^ 64; 20 digits are enough.
abbrev pub to_chars : ℕ → Bytes
to_chars n = digits 20 n

-- `%0<w>u`: as many digits as there are, and zeros in front up to `w`.
unfoldable pub zeros : ℕ → Bytes
zeros zero = []
zeros (suc n) = 48 ∷ zeros n

abbrev pub padded : ℕ → ℕ → Bytes
padded w n = zeros (w - length (to_chars n)) ++ to_chars n
