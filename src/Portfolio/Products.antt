-- ===== src/Portfolio/Products.antt =====
-- Products of the signed integers.
use low_latency_hft_matching.Base.{
  ℕ, ◌+◌, ◌*◌, ◌≡◌, ap, ℤ, pos, pos_part, neg_part, ◌+ℤ◌, ◌-ℤ◌, ◌*ℤ◌, *ℤ_parts, -ℤ_parts, +ℤ_parts,
  eq_of_parts, arith,
}

-- The product of two differences of natural numbers.
*ℤ_differences :
    (a b : ℤ) (x y u v : ℕ)
    → pos_part a + y ≡ neg_part a + x
    → pos_part b + v ≡ neg_part b + u
    → pos_part (a *ℤ b) + x * v + y * u ≡ neg_part (a *ℤ b) + x * u + y * v
*ℤ_differences a b x y u v e f = omega (
  arith,
  *ℤ_parts a b,
  ap (λ n. n * pos_part b) e,
  ap (λ n. n * neg_part b) e,
  ap (λ n. x * n) f,
  ap (λ n. y * n) f,
)

pub -ℤ-*ℤ : (a b c : ℤ) → (a -ℤ b) *ℤ c ≡ a *ℤ c -ℤ b *ℤ c
-ℤ-*ℤ a b c = eq_of_parts _ _ (
    omega (
      arith,
      -ℤ_parts (a *ℤ c) (b *ℤ c),
      *ℤ_parts a c,
      *ℤ_parts b c,
      *ℤ_differences (a -ℤ b) c (pos_part a + neg_part b) (neg_part a + pos_part b) (pos_part c)
          (neg_part c) (omega (arith, -ℤ_parts a b)) (omega arith),
    ))

pub *ℤ-+ℤ : (a b c : ℤ) → a *ℤ (b +ℤ c) ≡ a *ℤ b +ℤ a *ℤ c
*ℤ-+ℤ a b c = eq_of_parts _ _ (
    omega (
      arith,
      +ℤ_parts (a *ℤ b) (a *ℤ c),
      *ℤ_parts a b,
      *ℤ_parts a c,
      *ℤ_differences a (b +ℤ c) (pos_part a) (neg_part a) (pos_part b + pos_part c)
          (neg_part b + neg_part c) (omega arith) (omega (arith, +ℤ_parts b c)),
    ))

pub *ℤ-neg : (a b : ℤ) → a *ℤ (pos 0 -ℤ b) ≡ pos 0 -ℤ a *ℤ b
*ℤ-neg a b = eq_of_parts _ _ (
    omega (
      arith,
      -ℤ_parts (pos 0) (a *ℤ b),
      *ℤ_parts a b,
      *ℤ_differences a (pos 0 -ℤ b) (pos_part a) (neg_part a) (neg_part b) (pos_part b)
          (omega arith) (omega (arith, -ℤ_parts (pos 0) b)),
    ))

pub *ℤ_zero : (a : ℤ) → a *ℤ pos 0 ≡ pos 0
*ℤ_zero a = eq_of_parts _ _ (omega (arith, *ℤ_parts a (pos 0)))
