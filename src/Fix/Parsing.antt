-- ===== src/Fix/Parsing.antt =====
-- `parse_frame` of mvp/src/fix/parser.cpp ends on every input.
use low_latency_hft_matching.Base.{
  ℕ, zero, suc, ◌+◌, ◌-◌, ◌^◌, ◌<◌, ◌≡◌, refl, [], ◌∷◌, ◌++◌, Bool, true, false, Option, none, some,
  ◌==◌, length, arith, Bool-cases, Option-cases, ◌⊎◌, inl, inr,
}
use low_latency_hft_matching.Fix.{Message, soh}
use low_latency_hft_matching.Fix.Numbers.{Bytes, is_digit, from_digits}
use low_latency_hft_matching.Fix.Framing.{
  scan_tag, scan_value, parse_field, parse_from, parse_frame,
}

-- A step that fails or leaves fewer bytes than `cs`.
abbrev Shrinks {ℓ} : {A : Type ℓ} → Option (A × Bytes) → Bytes → Type ℓ
Shrinks {A} o cs = (o ≡ none) ⊎ ((r : A × Bytes) × (o ≡ some r) × (length r.1 < length cs))

scan_tag-Shrinks : (cs : Bytes) → Shrinks (scan_tag cs) cs
unfolding scan_tag
scan_tag-Shrinks [] = inl refl
scan_tag-Shrinks (c ∷ cs) = elim (Bool-cases (c == 61)) [
  | inl sign ↦ rw sign (inr (([], cs), refl, omega arith))
  | inr on ↦ elim (Bool-cases (is_digit c)) [
    | inr other ↦ rw (on, other) (inl refl)
    | inl digit ↦ elim (scan_tag-Shrinks cs) [
      | inl e ↦ rw (on, digit, e) (inl refl)
      | inr (r, e, h) ↦ rw (on, digit, e) (inr ((c ∷ r.0, r.1), refl, omega (arith, h)))
    ]
  ]
]

scan_value-Shrinks : (cs : Bytes) → Shrinks (scan_value cs) cs
unfolding scan_value
scan_value-Shrinks [] = inl refl
scan_value-Shrinks (c ∷ cs) = elim (Bool-cases (c == soh)) [
  | inl end ↦ rw end (inr (([], cs), refl, omega arith))
  | inr on ↦ elim (scan_value-Shrinks cs) [
    | inl e ↦ rw (on, e) (inl refl)
    | inr (r, e, h) ↦ rw (on, e) (inr ((c ∷ r.0, r.1), refl, omega (arith, h)))
  ]
]

parse_field-Shrinks : (cs : Bytes) → Shrinks (parse_field cs) cs
unfolding parse_field
parse_field-Shrinks cs = elim (scan_tag-Shrinks cs) [
  | inl e ↦ rw e (inl refl)
  | inr (t, e, h) ↦ elim (Option-cases (from_digits (2 ^ 31 - 1) t.0)) [
    | inl bad ↦ rw (e, bad) (inl refl)
    | inr (tag, good) ↦ elim (scan_value-Shrinks t.1) [
      | inl no_end ↦ rw (e, good, no_end) (inl refl)
      | inr (v, end, k) ↦ rw (e, good, end) (inr (_, refl, omega (arith, h, k)))
    ]
  ]
]

parse_from_total :
    (fuel : ℕ) (fields : Message) (cs : Bytes)
    → length cs < fuel
    → (r : Bool × Message) × (parse_from fuel fields cs ≡ some r)
unfolding parse_from
parse_from_total zero fields cs h = absurd (omega (arith, h))
parse_from_total (suc fuel) fields [] h = ((true, fields), refl)
parse_from_total (suc fuel) fields (c ∷ cs) h = elim (parse_field-Shrinks (c ∷ cs)) [
  | inl e ↦ rw (e, parse_from) ((false, fields), refl)
  | inr (r, e, k) ↦
      rw (e, parse_from) (parse_from_total fuel (fields ++ r.0 ∷ []) r.1 (omega (arith, h, k)))
]

-- On every input `parse_frame` ends and answers true or false.
pub parse_frame_total : (frame : Bytes) → (r : Bool × Message) × (parse_frame frame ≡ some r)
unfolding parse_frame
parse_frame_total frame = parse_from_total (length frame + 1) [] frame (omega arith)
