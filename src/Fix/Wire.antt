-- ===== src/Fix/Wire.antt =====
-- `parse_frame` of mvp/src/fix/parser.cpp reads back fields that stand on the wire.
use low_latency_hft_matching.Base.{
  ℕ, zero, suc, ◌-◌, ◌^◌, ◌≤◌, ◌<◌, ◌≡◌, refl, ap, sym, ◌∙◌, [], ◌∷◌, ◌++◌, true, false, some, ◌==◌,
  length, length-append, append_assoc, append-nil, is_empty, arith,
}
use low_latency_hft_matching.Fix.{Field, Message, soh}
use low_latency_hft_matching.Fix.Numbers.{Bytes, to_chars}
use low_latency_hft_matching.Fix.Numbers.Decimal.{AllDigits, AllDigits-digits, from_digits-to_chars}
use low_latency_hft_matching.Fix.Framing.{
  scan_tag, scan_value, parse_field, parse_from, parse_frame,
}
use low_latency_hft_matching.Fix.Building.{wire_field}

-- The bytes of fields, one behind the other.
abbrev pub wire : Message → Bytes
wire [] = []
wire (f ∷ fs) = wire_field f.tag f.value ++ wire fs

pub wire-append : (fs gs : Message) → wire (fs ++ gs) ≡ wire fs ++ wire gs
wire-append [] gs = refl
wire-append (f ∷ fs) gs =
    ap (λ t. wire_field f.tag f.value ++ t) (wire-append fs gs)
    ∙ sym (append_assoc (wire_field f.tag f.value) (wire fs) (wire gs))

-- No separator among the bytes.
abbrev pub IsPlain : Bytes → Type 0
IsPlain [] = Unit {0}
IsPlain (c ∷ cs) = ((c == soh) ≡ false) × IsPlain cs

-- A tag fits an `int`, and the value has no separator.
abbrev pub IsPrintable : Field → Type 0
IsPrintable f = (f.tag < 2 ^ 31) × IsPlain f.value

abbrev pub AllPrintable : Message → Type 0
AllPrintable [] = Unit {0}
AllPrintable (f ∷ fs) = IsPrintable f × AllPrintable fs

scan_tag-append : (ds rest : Bytes) → AllDigits ds → scan_tag (ds ++ 61 ∷ rest) ≡ some (ds, rest)
unfolding scan_tag
scan_tag-append [] rest h = refl
scan_tag-append (d ∷ ds) rest h =
    let ne : (d == 61) ≡ false = ground (arith, h.0) in
    rw (ne, h.0, scan_tag-append ds rest h.1) refl

scan_value-append : (v rest : Bytes) → IsPlain v → scan_value (v ++ soh ∷ rest) ≡ some (v, rest)
unfolding scan_value
scan_value-append [] rest h = refl
scan_value-append (c ∷ v) rest h = rw (h.0, scan_value-append v rest h.1) refl

field_bytes :
    (f : Field) (rest : Bytes)
    → wire_field f.tag f.value ++ rest ≡ to_chars f.tag ++ 61 ∷ (f.value ++ soh ∷ rest)
field_bytes f rest =
    append_assoc (to_chars f.tag ++ 61 ∷ f.value) (soh ∷ []) rest
    ∙ append_assoc (to_chars f.tag) (61 ∷ f.value) (soh ∷ rest)

parse_field_lem :
    (f : Field) (rest : Bytes)
    → IsPrintable f
    → parse_field (wire_field f.tag f.value ++ rest) ≡ some (f, rest)
unfolding parse_field
parse_field_lem f rest h =
    rw
      (
        field_bytes f rest,
        scan_tag-append (to_chars f.tag) (f.value ++ soh ∷ rest) (AllDigits-digits 20 f.tag),
        from_digits-to_chars (2 ^ 31 - 1) f.tag (omega (arith, h.0)) (omega (arith, h.0)),
        scan_value-append f.value rest h.1,
      )
      refl

-- One round of the loop on bytes that are not at their end.
parse_from_round :
    (fuel : ℕ) (acc : Message) (cs rest : Bytes) (f : Field)
    → is_empty cs ≡ false
    → parse_field cs ≡ some (f, rest)
    → parse_from (suc fuel) acc cs ≡ parse_from fuel (acc ++ f ∷ []) rest
unfolding parse_from
parse_from_round fuel acc [] rest f h e = cc
parse_from_round fuel acc (c ∷ cs) rest f h e = rw (e, parse_from) refl

is_empty-wire : (f : Field) (rest : Bytes) → is_empty (wire_field f.tag f.value ++ rest) ≡ false
is_empty-wire f rest = rw (field_bytes f rest) (before_sign (to_chars f.tag) _)
  where
    before_sign : (xs ys : Bytes) → is_empty (xs ++ 61 ∷ ys) ≡ false
    before_sign [] ys = refl
    before_sign (x ∷ xs) ys = refl

parse_from-wire :
    (fs acc : Message) (fuel : ℕ)
    → length fs < fuel
    → AllPrintable fs
    → parse_from fuel acc (wire fs) ≡ some (true, acc ++ fs)
unfolding parse_from
parse_from-wire fs acc zero h p = absurd (omega (arith, h))
parse_from-wire [] acc (suc fuel) h p = ap (λ m. some (true, m)) (sym (append-nil acc))
parse_from-wire (f ∷ fs) acc (suc fuel) h p =
    parse_from_round fuel acc (wire (f ∷ fs)) (wire fs) f (is_empty-wire f (wire fs))
      (parse_field_lem f (wire fs) p.0)
    ∙ parse_from-wire fs (acc ++ f ∷ []) fuel (omega (arith, h)) p.1
    ∙ ap (λ m. some (true, m)) (append_assoc acc (f ∷ []) fs)

length-wire : (fs : Message) → length fs ≤ length (wire fs)
length-wire [] = omega arith
length-wire (f ∷ fs) = omega (
  arith,
  length-wire fs,
  length-append (wire_field f.tag f.value) (wire fs),
  length-append (to_chars f.tag ++ 61 ∷ f.value) (soh ∷ []),
)

-- `parse_frame` reads back, in order and unchanged, fields whose tags fit an `int` and whose values
-- have no separator.
pub parse_frame-wire : (fs : Message) → AllPrintable fs → parse_frame (wire fs) ≡ some (true, fs)
unfolding parse_frame
parse_frame-wire fs p = parse_from-wire fs [] _ (omega (arith, length-wire fs)) p
