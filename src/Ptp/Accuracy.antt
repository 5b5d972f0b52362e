-- ===== src/Ptp/Accuracy.antt =====
-- How far the offset that mvp/src/ptp/ptp_client.cpp measures is from the true one.
use low_latency_hft_matching.Base.{
  ℕ, zero, suc, ◌+◌, ◌/◌, ◌%◌, ◌≤◌, ◌≡◌, refl, ap, ◌∙◌, ℤ, pos, negsuc, pos_part, neg_part, ◌+ℤ◌,
  ◌-ℤ◌, ◌≤ℤ◌, eqb_ℤ_self, [], ◌∷◌, ◌++◌, false, some, length, length-append, take_all, ltb,
  if-false, is_empty, arith, int_laws, eq_of_parts, Bool-cases, inl, inr,
}
use low_latency_hft_matching.Portfolio.{quot_ℤ}
use low_latency_hft_matching.Fix.Numbers.{Bytes, digits}
use low_latency_hft_matching.Fix.Building.{int_chars}
use low_latency_hft_matching.Fix.Lookups.{IsInt64}
use low_latency_hft_matching.Scan.{scan_text, skip_space}
use low_latency_hft_matching.Scan.Written.{scan_signed-int_chars}
use low_latency_hft_matching.Ptp.{
  PtpSample, t2_text, t3_text, request, answer_text, oracle_answer, scan_answer, measure,
  sample_mock, master_offset_ns,
}

-- The halving rounds towards 0.
half_bounds : (x : ℤ) → let q = quot_ℤ x (pos 2) in (q +ℤ q ≤ℤ x +ℤ pos 1) × (x ≤ℤ q +ℤ q +ℤ pos 1)
unfolding quot_ℤ
half_bounds (pos n) = (omega int_laws, omega int_laws)
half_bounds (negsuc n) = (omega int_laws, omega int_laws)

half_double : (x y : ℤ) → x ≡ y +ℤ y → quot_ℤ x (pos 2) ≡ y
half_double x y e =
    let (low, high) = half_bounds x in
    eq_of_parts _ y (omega (int_laws, low, high, ap pos_part e, ap neg_part e))

length-digits-le : (fuel n : ℕ) → length (digits fuel n) ≤ fuel
unfolding digits
length-digits-le zero n = omega arith
length-digits-le (suc fuel) n = elim (Bool-cases (ltb n 10)) [
  | inl one ↦ rw one (omega arith)
  | inr more ↦ rw more (
      omega (
        arith,
        length-append (digits fuel (n / 10)) ((48 + n % 10) ∷ []),
        length-digits-le fuel (n / 10),
      ))
]

length-int_chars : (v : ℤ) → length (int_chars v) ≤ 21
length-int_chars (pos n) = omega (arith, length-digits-le 20 n)
length-int_chars (negsuc n) = omega (arith, length-digits-le 20 (suc n))

length-request : (t1 : ℤ) → length (request t1) ≤ 255
unfolding request
length-request t1 = omega (arith, length-append (int_chars t1) (10 ∷ []), length-int_chars t1)

length-answer_text : (t1 t2 t3 : ℤ) → length (answer_text t1 t2 t3) ≤ 127
unfolding answer_text
length-answer_text t1 t2 t3 =
    let end = int_chars t3 ++ 10 ∷ [] in
    let middle = int_chars t2 ++ (t3_text ++ end) in
    omega (
      arith,
      length-append (int_chars t1) (t2_text ++ middle),
      length-append (int_chars t2) (t3_text ++ end),
      length-append (int_chars t3) (10 ∷ []),
      length-int_chars t1,
      length-int_chars t2,
      length-int_chars t3,
    )

scan_answer-answer_text :
    (t1 t2 t3 : ℤ)
    → IsInt64 t1
    → IsInt64 t2
    → IsInt64 t3
    → scan_answer (answer_text t1 t2 t3) ≡ some (t1, t2, t3)
unfolding scan_answer answer_text scan_text skip_space
scan_answer-answer_text t1 t2 t3 h1 h2 h3 =
    let end = int_chars t3 ++ 10 ∷ [] in
    let middle = int_chars t2 ++ (t3_text ++ end) in
    rw
      (
        scan_signed-int_chars t1 (t2_text ++ middle) h1 refl,
        scan_signed-int_chars t2 (t3_text ++ end) h2 refl,
        scan_signed-int_chars t3 (10 ∷ []) h3 refl,
      )
      refl

oracle_answer-request :
    (t1 t2 t3 : ℤ)
    → IsInt64 t1
    → oracle_answer (request t1) t2 t3
      ≡ some (answer_text t1 (t2 +ℤ master_offset_ns) (t3 +ℤ master_offset_ns))
unfolding oracle_answer
oracle_answer-request t1 t2 t3 h =
    rw (take_all 255 (request t1) (length-request t1))
      (unfold scan_text skip_space request in rw (scan_signed-int_chars t1 (10 ∷ []) h refl) refl)

answer_not_empty : (t1 t2 t3 : ℤ) → is_empty (answer_text t1 t2 t3) ≡ false
unfolding answer_text
answer_not_empty t1 t2 t3 = refl

sample_mock-answer_text :
    (t1 t2 t3 t4 : ℤ)
    → IsInt64 t1
    → IsInt64 t2
    → IsInt64 t3
    → sample_mock t1 (some (answer_text t1 t2 t3)) t4 ≡ some (measure t1 t2 t3 t4)
unfolding sample_mock
sample_mock-answer_text t1 t2 t3 t4 h1 h2 h3 =
    if-false (is_empty (answer_text t1 t2 t3)) _ _ (answer_not_empty t1 t2 t3)
    ∙ rw
        (
          take_all 127 (answer_text t1 t2 t3) (length-answer_text t1 t2 t3),
          scan_answer-answer_text t1 t2 t3 h1 h2 h3,
          eqb_ℤ_self t1,
        )
        refl

-- How a measured offset stands to the true one, `true_ns`, where the request takes `there` and the
-- answer `back`: it is off by no more than the two delays, and exact if they are the same; the
-- measured delay is their mean.
abbrev pub Accurate : ℤ → ℕ → ℕ → PtpSample → Type 0
Accurate true_ns there back s =
    (s.offset_ns ≤ℤ true_ns +ℤ pos there)
    × (true_ns ≤ℤ s.offset_ns +ℤ pos back)
    × ((there ≡ back) → s.offset_ns ≡ true_ns)
    × (s.one_way_ns ≡ pos ((there + back) / 2))

halved_bounds :
    (x y : ℤ) (a b : ℕ)
    → x ≡ y +ℤ y +ℤ pos a -ℤ pos b
    → let q = quot_ℤ x (pos 2) in (q ≤ℤ y +ℤ pos a) × (y ≤ℤ q +ℤ pos b)
halved_bounds x y a b e =
    let (low, high) = half_bounds x in
    (
      omega (int_laws, low, ap pos_part e, ap neg_part e),
      omega (int_laws, high, ap pos_part e, ap neg_part e),
    )

cancels : (y : ℤ) (a b : ℕ) → a ≡ b → y +ℤ y +ℤ pos a -ℤ pos b ≡ y +ℤ y
cancels y a b e = omega (int_laws, e)

-- The four times of an exchange: the oracle's clock is `skew` ahead of the client's, and it takes
-- `busy` to answer.
measure-Accurate :
    (t1 skew : ℤ) (there busy back : ℕ)
    → let true_ns = skew +ℤ master_offset_ns in
      let t2 = t1 +ℤ pos there +ℤ skew +ℤ master_offset_ns in
      let t3 = t1 +ℤ pos (there + busy) +ℤ skew +ℤ master_offset_ns in
      let t4 = t1 +ℤ pos (there + busy + back) in Accurate true_ns there back (measure t1 t2 t3 t4)
unfolding measure quot_ℤ
measure-Accurate t1 skew there busy back =
    let true_ns = skew +ℤ master_offset_ns in
    let t2 = t1 +ℤ pos there +ℤ skew +ℤ master_offset_ns in
    let t3 = t1 +ℤ pos (there + busy) +ℤ skew +ℤ master_offset_ns in
    let t4 = t1 +ℤ pos (there + busy + back) in
    let twice : t2 -ℤ t1 +ℤ t3 -ℤ t4 ≡ true_ns +ℤ true_ns +ℤ pos there -ℤ pos back =
      omega int_laws in
    let whole : t4 -ℤ t1 -ℤ (t3 -ℤ t2) ≡ pos (there + back) = omega int_laws in
    let (below, above) = halved_bounds (t2 -ℤ t1 +ℤ t3 -ℤ t4) true_ns there back twice in
    (
      below,
      above,
      λ e. half_double (t2 -ℤ t1 +ℤ t3 -ℤ t4) true_ns (twice ∙ cancels true_ns there back e),
      ap (λ x. quot_ℤ x (pos 2)) whole,
    )

-- An exchange with the oracle over a network that delivers both datagrams: the client reads the
-- oracle's answer to its request, and its sample is accurate as far as the two delays allow.
pub exchange-Accurate :
    (t1 skew : ℤ) (there busy back : ℕ)
    → let true_ns = skew +ℤ master_offset_ns in
      let arrives = t1 +ℤ pos there +ℤ skew in
      let answers = t1 +ℤ pos (there + busy) +ℤ skew in
      IsInt64 t1
      → IsInt64 (arrives +ℤ master_offset_ns)
      → IsInt64 (answers +ℤ master_offset_ns)
      → (answer : Bytes) × (s : PtpSample) × (oracle_answer (request t1) arrives answers
          ≡ some answer)
        × (sample_mock t1 (some answer) (t1 +ℤ pos (there + busy + back)) ≡ some s)
        × Accurate true_ns there back s
exchange-Accurate t1 skew there busy back h1 h2 h3 =
    let arrives = t1 +ℤ pos there +ℤ skew in
    let answers = t1 +ℤ pos (there + busy) +ℤ skew in
    let t2 = arrives +ℤ master_offset_ns in
    let t3 = answers +ℤ master_offset_ns in
    let t4 = t1 +ℤ pos (there + busy + back) in
    (
      answer_text t1 t2 t3,
      measure t1 t2 t3 t4,
      oracle_answer-request t1 arrives answers h1,
      sample_mock-answer_text t1 t2 t3 t4 h1 h2 h3,
      measure-Accurate t1 skew there busy back,
    )
