-- ===== src/Ring/Capacity.antt =====
-- The capacity that `round_up_pow2` picks.
use native.Mathlib.Nat.{pow-suc, pow-le-pow_right}
use native.Mathlib.Decide.{dec_lt}
use low_latency_hft_matching.Base.{
  ℕ, zero, suc, ◌+◌, ◌*◌, ◌^◌, ◌≤◌, ◌<◌, ◌≡◌, refl, subst, false, arith, leb, ltb, Bool-cases, inl,
  inr,
}
use low_latency_hft_matching.Ring.{bit_ceil_from, round_up_pow2}

-- A power of two that is at least `n` and less than twice `n`, between given exponents.
abbrev pub Ceiling : ℕ → ℕ → ℕ → ℕ → Type 0
Ceiling lo hi n p = (k : ℕ) × (p ≡ 2 ^ k) × (lo ≤ k) × (k ≤ hi) × (n ≤ p) × (p < 2 * n)

bit_ceil_from-Ceiling :
    (fuel k n : ℕ)
    → 2 ^ k < 2 * n
    → n ≤ 2 ^ (k + fuel)
    → Ceiling k (k + fuel) n (bit_ceil_from fuel (2 ^ k) n)
unfolding bit_ceil_from
bit_ceil_from-Ceiling zero k n low high =
    let e : k + 0 ≡ k = omega arith in
    (k, refl, omega arith, omega arith, subst (λ m. n ≤ 2 ^ m) e high, low)
bit_ceil_from-Ceiling (suc fuel) k n low high = elim (Bool-cases (leb n (2 ^ k))) [
  | inl done ↦ rw done (k, refl, omega arith, omega arith, ground (arith, done), low)
  | inr more ↦
      let double : 2 * 2 ^ k ≡ 2 ^ suc k = omega (arith, pow-suc 2 k) in
      let e : k + suc fuel ≡ suc k + fuel = omega arith in
      let big : 2 ^ k < n = ground (arith, more) in
      let (j, p, lo, hi, ge, lt) =
        bit_ceil_from-Ceiling fuel (suc k) n (omega (arith, double, big))
          (subst (λ m. n ≤ 2 ^ m) e high) in
      rw (more, double) (j, p, omega arith, omega arith, ge, lt)
]

exponent_pos : (j n : ℕ) → 2 ≤ n → n ≤ 2 ^ j → 1 ≤ j
exponent_pos zero n two h = omega (arith, two, h)
exponent_pos (suc j) n two h = omega arith

exponent_le : (j n : ℕ) → n ≤ 2 ^ 63 → 2 ^ j < 2 * n → j ≤ 63
exponent_le j n small h = elim (dec_lt j 64) [
  | yes p ↦ omega arith
  | no p ↦
      let two : 0 < 2 = omega arith in
      let big : 64 ≤ j = omega arith in
      absurd (omega (arith, h, pow-le-pow_right {n = 2} two {i = 64} {j = j} big))
]

-- For a request of 2 to 2 ^ 63 slots `round_up_pow2` answers the power of two that is at least the
-- request and less than twice it, with an exponent from 1 to 63.
pub round_up_pow2-Ceiling : (n : ℕ) → 2 ≤ n → n ≤ 2 ^ 63 → Ceiling 1 63 n (round_up_pow2 n)
unfolding round_up_pow2
round_up_pow2-Ceiling n two small =
    let (j, p, lo, hi, ge, lt) =
      bit_ceil_from-Ceiling 64 0 n (omega arith) (omega (arith, small)) in
    let test : ltb n 2 ≡ false = ground (arith, two) in
    rw test (
      j,
      p,
      exponent_pos j n two (subst (λ m. n ≤ m) p ge),
      exponent_le j n small (subst (λ m. m < 2 * n) p lt),
      ge,
      lt,
    )
