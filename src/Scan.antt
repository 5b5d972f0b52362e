-- ===== src/Scan.antt =====
-- `sscanf`, as mvp/src/ptp and mvp/src/backtest/replay.cpp use it: literals, `%c` and the decimal
-- conversions. On a number outside the type, where the standard says nothing, a conversion fails.
pub mod Written
use low_latency_hft_matching.Base.{
  ℕ, ◌+◌, ◌-◌, ◌%◌, ◌^◌, ℤ, pos, ◌-ℤ◌, [], ◌∷◌, Bool, ◌&&◌, ◌||◌, Option, none, some, ◌==◌, leb,
  if◌then◌else◌, length, drop, ◌>>=◌,
}
use low_latency_hft_matching.Fix.Numbers.{Bytes, leading_digits, from_digits}

abbrev pub is_space : ℕ → Bool
is_space c = c == 32 || (leb 9 c && leb c 13)

unfoldable pub skip_space : Bytes → Bytes
skip_space [] = []
skip_space (c ∷ cs) = if is_space c then skip_space cs else c ∷ cs

-- The digits at the front, and what is behind them.
unfoldable pub unsigned_at : ℕ → Bytes → Option (ℕ × Bytes)
unsigned_at max cs = from_digits max cs >>= λ n. some (n, drop (length (leading_digits cs)) cs)

-- Behind the sign of an `int64_t`.
unfoldable pub negative_at : Bytes → Option (ℤ × Bytes)
negative_at cs = unsigned_at (2 ^ 63) cs >>= λ r. some (pos 0 -ℤ pos r.0, r.1)

unfoldable pub positive_at : Bytes → Option (ℤ × Bytes)
positive_at cs = unsigned_at (2 ^ 63 - 1) cs >>= λ r. some (pos r.0, r.1)

unfoldable pub signed_at : Bytes → Option (ℤ × Bytes)
unfolding negative_at positive_at
signed_at [] = none
signed_at (c ∷ cs) =
    if c == 45 then negative_at cs else if c == 43 then positive_at cs else positive_at (c ∷ cs)

-- `%lld`
unfoldable pub scan_signed : Bytes → Option (ℤ × Bytes)
unfolding signed_at
scan_signed cs = signed_at (skip_space cs)

unfoldable pub sign_unsigned_at : ℕ → Bytes → Option (ℕ × Bytes)
sign_unsigned_at max [] = none
sign_unsigned_at max (c ∷ cs) =
    if c == 45
    then (unsigned_at max cs >>= λ r. some ((max + 1 - r.0) % (max + 1), r.1))
    else if c == 43
    then unsigned_at max cs
    else unsigned_at max (c ∷ cs)

-- `%llu` and `%u`, for a type with this greatest value; a minus sign negates modulo the type's size.
unfoldable pub scan_unsigned : ℕ → Bytes → Option (ℕ × Bytes)
unfolding sign_unsigned_at
scan_unsigned max cs = sign_unsigned_at max (skip_space cs)

-- `%c`; a NUL ends the text.
unfoldable pub scan_char : Bytes → Option (ℕ × Bytes)
scan_char [] = none
scan_char (c ∷ cs) = if c == 0 then none else some (c, cs)

-- A literal; a space in it stands for any white space.
unfoldable pub scan_text : Bytes → Bytes → Option Bytes
scan_text [] cs = some cs
scan_text (f ∷ fs) [] = if f == 32 then scan_text fs [] else none
scan_text (f ∷ fs) (c ∷ cs) =
    let spaced = scan_text fs (skip_space (c ∷ cs)) in
    let next = scan_text fs cs in if f == 32 then spaced else if f == c then next else none
