-- ===== src/Fix/Messages.antt =====
-- Messages built by mvp/src/fix/parser.cpp come back from `split_frame` and `parse_frame`.
use native.Mathlib.Nat.{mod-lt, mod-eq_of_lt}
use low_latency_hft_matching.Base.{
  ℕ, suc, ◌-◌, ◌%◌, ◌^◌, ◌<◌, ◌≡◌, refl, ap, sym, ◌∙◌, subst, ℤ, pos, List, [], ◌∷◌, ◌++◌, true,
  false, some, length, append_assoc, append-nil, take, take-append, map, is_empty, arith,
}
use low_latency_hft_matching.Fix.{Field, Message, soh}
use low_latency_hft_matching.Fix.Numbers.{Bytes, digits, digits_value, to_chars, padded}
use low_latency_hft_matching.Fix.Numbers.Decimal.{
  AllDigits, length-padded, AllDigits-padded, digits_value-padded,
}
use low_latency_hft_matching.Fix.Framing.{ok, checksum, split_frame, parse_frame}
use low_latency_hft_matching.Fix.Building.{
  Builder, wire_field, add_str, add_int, add_char, int_chars, begin, finalize, header, patch,
}
use low_latency_hft_matching.Fix.Frames.{front, trailer, split_frame_lem}
use low_latency_hft_matching.Fix.Wire.{
  wire, wire-append, IsPlain, IsPrintable, AllPrintable, parse_frame-wire,
}

-- A call between `begin` and `finalize`.
pub data Add : Type 0 where
  adds_str : ℕ → Bytes → Add
  adds_int : ℕ → ℤ → Add
  adds_char : ℕ → ℕ → Add

abbrev pub add : Add → Builder → Builder
add (adds_str tag v) b = add_str tag v b
add (adds_int tag v) b = add_int tag v b
add (adds_char tag c) b = add_char tag c b

abbrev pub add_all : List Add → Builder → Builder
add_all [] b = b
add_all (a ∷ adds) b = add_all adds (add a b)

-- The field that a call writes.
abbrev pub field_of : Add → Field
field_of (adds_str tag v) = record { tag = tag; value = v }
field_of (adds_int tag v) = record { tag = tag; value = int_chars v }
field_of (adds_char tag c) = record { tag = tag; value = c ∷ [] }

-- The fields that `begin` writes behind the body length.
abbrev pub opening : ℕ → Bytes → Bytes → ℕ → Message
opening msg_type sender target seq =
    record { tag = 35; value = msg_type ∷ [] }
    ∷ record { tag = 49; value = sender }
    ∷ record { tag = 56; value = target }
    ∷ record { tag = 34; value = to_chars seq }
    ∷ []

-- The head of a message whose length is not patched in.
abbrev blank : Bytes
blank = header ++ (48 ∷ 48 ∷ 48 ∷ 48 ∷ 48 ∷ 48 ∷ soh ∷ [])

-- The builder holds these fields so far.
pub record Holds (b : Builder) (fs : Message) : Type 0 where
  pub buf : b.buf ≡ blank ++ wire fs
  pub start : b.body_start ≡ 19
  pub slot : b.body_len_slot ≡ 12

wire-last : (fs : Message) (f : Field) → wire (fs ++ f ∷ []) ≡ wire fs ++ wire_field f.tag f.value
wire-last fs f =
    wire-append fs (f ∷ []) ∙ ap (λ t. wire fs ++ t) (append-nil (wire_field f.tag f.value))

Holds_more :
    (buf : Bytes) (fs : Message) (f : Field)
    → buf ≡ blank ++ wire fs
    → buf ++ wire_field f.tag f.value ≡ blank ++ wire (fs ++ f ∷ [])
Holds_more buf fs f e =
    ap (λ t. t ++ wire_field f.tag f.value) e
    ∙ append_assoc blank (wire fs) (wire_field f.tag f.value)
    ∙ ap (λ t. blank ++ t) (sym (wire-last fs f))

add-Holds :
    (a : Add) (b : Builder) (fs : Message) → Holds b fs → Holds (add a b) (fs ++ field_of a ∷ [])
unfolding add_str add_int add_char
add-Holds (adds_str tag v) b fs h = record {
  buf = Holds_more b.buf fs (field_of (adds_str tag v)) h.buf;
  start = h.start;
  slot = h.slot;
}
add-Holds (adds_int tag v) b fs h = record {
  buf = Holds_more b.buf fs (field_of (adds_int tag v)) h.buf;
  start = h.start;
  slot = h.slot;
}
add-Holds (adds_char tag c) b fs h = record {
  buf = Holds_more b.buf fs (field_of (adds_char tag c)) h.buf;
  start = h.start;
  slot = h.slot;
}

add_all-Holds :
    (adds : List Add) (b : Builder) (fs : Message)
    → Holds b fs
    → Holds (add_all adds b) (fs ++ map field_of adds)
add_all-Holds [] b fs h = subst (Holds b) (sym (append-nil fs)) h
add_all-Holds (a ∷ adds) b fs h =
    subst (Holds (add_all adds (add a b))) (append_assoc fs (field_of a ∷ []) (map field_of adds))
      (add_all-Holds adds (add a b) (fs ++ field_of a ∷ []) (add-Holds a b fs h))

begin-Holds :
    (msg_type : ℕ) (sender target : Bytes) (seq : ℕ)
    → Holds (begin msg_type sender target seq) (opening msg_type sender target seq)
unfolding begin
begin-Holds msg_type sender target seq =
    add_all-Holds
      (adds_char 35 msg_type ∷ adds_str 49 sender ∷ adds_str 56 target ∷ adds_int 34 (pos seq) ∷ [])
      (record { buf = blank; body_start = 19; body_len_slot = 12 }) []
      (record { buf = refl; start = refl; slot = refl })

take_all : (xs : Bytes) (k : ℕ) → length xs ≡ k → take k xs ≡ xs
take_all xs k e =
    ap (λ n. take n xs) (sym e) ∙ ap (take (length xs)) (sym (append-nil xs)) ∙ take-append xs []

patch_lem :
    (w : Bytes)
    → length w < 10 ^ 6
    → patch 12 (padded 6 (length (blank ++ w) - 19)) (blank ++ w) ≡ front (padded 6 (length w)) w
patch_lem w small =
    let e : length (blank ++ w) - 19 ≡ length w = omega arith in
    rw (e, take_all (padded 6 (length w)) 6 (length-padded 5 (length w) small)) refl

-- The body length as it is patched in, and the trailer.
abbrev length_digits : Message → Bytes
length_digits fs = padded 6 (length (wire fs))

abbrev sum_digits : Message → Bytes
sum_digits fs = padded 3 (checksum (front (length_digits fs) (wire fs)))

finalize_lem :
    (b : Builder) (fs : Message)
    → Holds b fs
    → length (wire fs) < 10 ^ 6
    → finalize b ≡ front (length_digits fs) (wire fs) ++ trailer (sum_digits fs)
unfolding finalize
finalize_lem b fs h small =
    rw (h.buf, h.start, h.slot, finalize)
      (ap (λ (x : Bytes). x ++ 49 ∷ 48 ∷ 61 ∷ padded 3 (checksum x) ++ soh ∷ [])
          (patch_lem (wire fs) small)
        ∙ append_assoc (front (length_digits fs) (wire fs)) (49 ∷ 48 ∷ 61 ∷ sum_digits fs)
            (soh ∷ []))

checksum-lt : (bytes : Bytes) → checksum bytes < 256
unfolding checksum
checksum-lt bytes = mod-lt _ (omega arith)

-- Three digits by name.
three_digits : (xs : Bytes) → length xs ≡ 3 → (a : ℕ) × (b : ℕ) × (c : ℕ) × (xs ≡ a ∷ b ∷ c ∷ [])
three_digits [] h = absurd (omega (arith, h))
three_digits (a ∷ []) h = absurd (omega (arith, h))
three_digits (a ∷ b ∷ []) h = absurd (omega (arith, h))
three_digits (a ∷ b ∷ c ∷ []) h = (a, b, c, refl)
three_digits (a ∷ b ∷ c ∷ d ∷ xs) h = absurd (omega (arith, h))

is_empty-length : (xs : Bytes) (n : ℕ) → length xs ≡ suc n → is_empty xs ≡ false
is_empty-length [] n h = absurd (omega (arith, h))
is_empty-length (x ∷ xs) n h = refl

split_frame-three :
    (fs : Message) (more : Bytes) (a b c : ℕ)
    → length (wire fs) < 10 ^ 6
    → a ∷ b ∷ c ∷ [] ≡ sum_digits fs
    → let frame = front (length_digits fs) (wire fs) ++ trailer (a ∷ b ∷ c ∷ []) in
      split_frame (front (length_digits fs) (wire fs) ++ (trailer (a ∷ b ∷ c ∷ []) ++ more))
      ≡ ok frame (length frame)
split_frame-three fs more a b c small e =
    let n = length (wire fs) in
    let sum = checksum (front (length_digits fs) (wire fs)) in
    let lt = checksum-lt (front (length_digits fs) (wire fs)) in
    let value = ap (digits_value 0) e ∙ digits_value-padded 3 sum (omega (arith, lt)) in
    split_frame_lem (length_digits fs) (wire fs) more a b c (AllDigits-padded 6 n)
      (is_empty-length (length_digits fs) 5 (length-padded 5 n small))
      (digits_value-padded 6 n (omega (arith, small))) (omega (arith, small))
      (subst AllDigits (sym e) (AllDigits-padded 3 sum)) (ap (λ v. v % 256) value ∙ mod-eq_of_lt lt)

split_frame-sum_digits :
    (fs : Message) (more : Bytes)
    → length (wire fs) < 10 ^ 6
    → let frame = front (length_digits fs) (wire fs) ++ trailer (sum_digits fs) in
      split_frame (front (length_digits fs) (wire fs) ++ (trailer (sum_digits fs) ++ more))
      ≡ ok frame (length frame)
split_frame-sum_digits fs more small =
    let lt = checksum-lt (front (length_digits fs) (wire fs)) in
    let (a, b, c, abc) = three_digits (sum_digits fs) (length-padded 2 _ (omega (arith, lt))) in
    subst
      (λ cs.
        split_frame (front (length_digits fs) (wire fs) ++ (trailer cs ++ more))
        ≡ ok (front (length_digits fs) (wire fs) ++ trailer cs)
            (length (front (length_digits fs) (wire fs) ++ trailer cs)))
      (sym abc) (split_frame-three fs more a b c small (sym abc))

-- All fields of the frame.
abbrev pub framed : Message → Message
framed fs =
    record { tag = 8; value = 70 ∷ 73 ∷ 88 ∷ 46 ∷ 52 ∷ 46 ∷ 52 ∷ [] }
    ∷ record { tag = 9; value = length_digits fs }
    ∷ (fs ++ record { tag = 10; value = sum_digits fs } ∷ [])

frame_bytes :
    (ds w cs : Bytes)
    → front ds w ++ trailer cs
      ≡ wire_field 8 (70 ∷ 73 ∷ 88 ∷ 46 ∷ 52 ∷ 46 ∷ 52 ∷ [])
        ++ (wire_field 9 ds ++ (w ++ wire_field 10 cs))
unfolding digits
frame_bytes ds w cs =
    ap (λ t. header ++ t)
      (append_assoc ds (soh ∷ w) (trailer cs) ∙ sym (append_assoc ds (soh ∷ []) (w ++ trailer cs)))

wire-framed :
    (fs : Message)
    → front (length_digits fs) (wire fs) ++ trailer (sum_digits fs) ≡ wire (framed fs)
wire-framed fs =
    frame_bytes (length_digits fs) (wire fs) (sum_digits fs)
    ∙ ap
        (λ t.
          wire_field 8 (70 ∷ 73 ∷ 88 ∷ 46 ∷ 52 ∷ 46 ∷ 52 ∷ [])
          ++ (wire_field 9 (length_digits fs) ++ t))
        (sym (wire-last fs (record { tag = 10; value = sum_digits fs })))

AllDigits-IsPlain : (cs : Bytes) → AllDigits cs → IsPlain cs
AllDigits-IsPlain [] h = tt
AllDigits-IsPlain (c ∷ cs) h = (ground (arith, h.0), AllDigits-IsPlain cs h.1)

AllPrintable-last :
    (fs : Message) (f : Field) → AllPrintable fs → IsPrintable f → AllPrintable (fs ++ f ∷ [])
AllPrintable-last [] f h k = (k, tt)
AllPrintable-last (g ∷ fs) f h k = (h.0, AllPrintable-last fs f h.1 k)

AllPrintable-framed : (fs : Message) → AllPrintable fs → AllPrintable (framed fs)
AllPrintable-framed fs h =
    let sum = checksum (front (length_digits fs) (wire fs)) in
    (
      (omega arith, (refl, (refl, (refl, (refl, (refl, (refl, (refl, tt)))))))),
      (
        (omega arith, AllDigits-IsPlain _ (AllDigits-padded 6 (length (wire fs)))),
        AllPrintable-last fs _ h (omega arith, AllDigits-IsPlain _ (AllDigits-padded 3 sum)),
      ),
    )

-- What stands between the body length and the checksum.
abbrev pub body_fields : ℕ → Bytes → Bytes → ℕ → List Add → Message
body_fields msg_type sender target seq adds =
    opening msg_type sender target seq ++ map field_of adds

-- A message built by `begin`, any `add_*` calls and `finalize`, whose body is below 10^6 bytes and
-- whose values have no separator, is recognised by `split_frame` in front of any other bytes, to its
-- last byte; `parse_frame` then returns the begin string, the body length, the header, the added
-- fields in order and the checksum.
pub finalize-parse_frame :
    (msg_type : ℕ) (sender target : Bytes) (seq : ℕ) (adds : List Add) (more : Bytes)
    → length (wire (body_fields msg_type sender target seq adds)) < 10 ^ 6
    → AllPrintable (body_fields msg_type sender target seq adds)
    → let frame = finalize (add_all adds (begin msg_type sender target seq)) in
      (split_frame (frame ++ more) ≡ ok frame (length frame))
      × (parse_frame frame ≡ some (true, framed (body_fields msg_type sender target seq adds)))
finalize-parse_frame msg_type sender target seq adds more small plain =
    let fs = body_fields msg_type sender target seq adds in
    let b = add_all adds (begin msg_type sender target seq) in
    let held = add_all-Holds adds _ _ (begin-Holds msg_type sender target seq) in
    let frame = finalize_lem b fs held small in
    rw frame (
      ap split_frame
            (append_assoc (front (length_digits fs) (wire fs)) (trailer (sum_digits fs)) more)
          ∙ split_frame-sum_digits fs more small,
      ap parse_frame (wire-framed fs) ∙ parse_frame-wire (framed fs) (AllPrintable-framed fs plain),
    )
