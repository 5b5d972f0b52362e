-- ===== src/Fix/Lookups.antt =====
-- The lookups of `Message` in mvp/src/fix/parser.cpp read what the builder wrote.
use low_latency_hft_matching.Base.{
  ℕ, suc, ◌-◌, ◌^◌, ◌≤◌, ◌<◌, ◌≡◌, refl, ap, ℤ, pos, negsuc, ◌-ℤ◌, pos_part, neg_part, [], ◌∷◌,
  ◌++◌, true, false, some, ◌==◌, is_empty, arith, int_laws,
}
use low_latency_hft_matching.Fix.{Field, Message, get, has, get_int}
use low_latency_hft_matching.Fix.Numbers.{Bytes, from_digits, from_chars, to_chars}
use low_latency_hft_matching.Fix.Numbers.Decimal.{
  AllDigits, AllDigits-digits, is_empty-digits, from_digits-to_chars,
}
use low_latency_hft_matching.Fix.Building.{int_chars}

-- An `int64_t`.
abbrev pub IsInt64 : ℤ → Type 0
IsInt64 v = (pos_part v < 2 ^ 63) × (neg_part v ≤ 2 ^ 63)

from_chars_unsigned :
    (cs : Bytes) (n : ℕ)
    → AllDigits cs
    → from_digits (2 ^ 63 - 1) cs ≡ some n
    → is_empty cs ≡ false
    → from_chars cs ≡ some (pos n)
unfolding from_chars
from_chars_unsigned [] n h e k = cc
from_chars_unsigned (c ∷ cs) n h e k =
    let plain : (c == 45) ≡ false = ground (arith, h.0) in rw (plain, e) refl

minus : (n : ℕ) → pos 0 -ℤ pos (suc n) ≡ negsuc n
minus n = omega int_laws

from_chars-int_chars : (v : ℤ) → IsInt64 v → from_chars (int_chars v) ≡ some v
unfolding from_chars
from_chars-int_chars (pos n) h =
    from_chars_unsigned (to_chars n) n (AllDigits-digits 20 n)
      (from_digits-to_chars (2 ^ 63 - 1) n (omega (arith, h.0)) (omega (arith, h.0)))
      (is_empty-digits 19 n)
from_chars-int_chars (negsuc n) h =
    rw (from_digits-to_chars (2 ^ 63) (suc n) (omega (arith, h.1)) (omega (arith, h.1)))
      (ap some (minus n))

has_cons :
    (tag : ℕ) (g : Field) (m : Message)
    → has tag (g ∷ m) ≡ false
    → ((g.tag == tag) ≡ false) × (has tag m ≡ false)
unfolding has
has_cons tag g m h = ground (arith, h)

is_empty-int_chars : (v : ℤ) → is_empty (int_chars v) ≡ false
is_empty-int_chars (pos n) = is_empty-digits 19 n
is_empty-int_chars (negsuc n) = refl

get_behind :
    (tag : ℕ) (m : Message) (f : Field) (more : Message)
    → has tag m ≡ false
    → f.tag ≡ tag
    → get tag (m ++ f ∷ more) ≡ f.value
unfolding get
get_behind tag [] f more h e = let here : (f.tag == tag) ≡ true = ground (arith, e) in rw here refl
get_behind tag (g ∷ m) f more h e =
    let (on, rest) = has_cons tag g m h in rw on (get_behind tag m f more rest e)

-- The first field with a tag, if the builder wrote an `int64_t` there, is read back by `get_int`
-- whatever the default.
pub get_int-int_chars :
    (tag : ℕ) (v def : ℤ) (m more : Message)
    → has tag m ≡ false
    → IsInt64 v
    → get_int tag def (m ++ record { tag = tag; value = int_chars v } ∷ more) ≡ v
unfolding get_int
get_int-int_chars tag v def m more h k =
    let found = get_behind tag m (record { tag = tag; value = int_chars v }) more h refl in
    rw (found, get_int) (rw (is_empty-int_chars v, from_chars-int_chars v k) refl)
