-- ===== src/Portfolio/Averaging.antt =====
-- Fills in the direction of the position: the average cost of mvp/src/backtest/portfolio.cpp, rounded
-- by the division.
use native.Mathlib.Nat.{mod-lt}
use low_latency_hft_matching.Base.{
  ℕ, suc, ◌+◌, ◌*◌, ◌/◌, ◌%◌, ◌<◌, ◌≡◌, ap, ap₂, sym, ◌∙◌, subst, ℤ, pos, negsuc, pos_part,
  neg_part, ◌+ℤ◌, ◌-ℤ◌, ◌*ℤ◌, eqb_ℤ, is_pos, ◌<ℤ◌, true, false, ◌⊎◌, inl, inr, int_laws, arith,
  eq_of_parts, *ℤ_parts, +ℤ_parts,
}
use low_latency_hft_matching.Book.Types.{Side, Price, Quantity}
use low_latency_hft_matching.Portfolio.{
  Portfolio, neg_ℤ, abs_ℤ, quot_ℤ, signed, same_direction, extend, on_fill, total_pnl,
}
use low_latency_hft_matching.Portfolio.Products.{*ℤ-+ℤ, *ℤ-neg, -ℤ-*ℤ}
use low_latency_hft_matching.Portfolio.Equity.{unrealized_pnl_lem, total_pnl_volume}

neg_pos_parts : (n : ℕ) → (pos_part (neg_ℤ (pos n)) ≡ 0) × (neg_part (neg_ℤ (pos n)) ≡ n)
unfolding ◌-ℤ◌
neg_pos_parts n = ground arith

-- The division leaves a remainder that is smaller than the divisor.
quot_ℤ_lem :
    (n : ℤ) (d : ℕ) → 0 < d → (r : ℤ) × (n ≡ quot_ℤ n (pos d) *ℤ pos d +ℤ r) × (abs_ℤ r <ℤ pos d)
unfolding quot_ℤ
quot_ℤ_lem (pos a) d h =
    let small = mod-lt a h in
    (
      pos (a % d),
      eq_of_parts _ _ (
          omega
            (arith, +ℤ_parts (pos (a / d) *ℤ pos d) (pos (a % d)), *ℤ_parts (pos (a / d)) (pos d))),
      omega (arith, small),
    )
quot_ℤ_lem (negsuc a) d h =
    let small = mod-lt (suc a) h in
    let q = neg_ℤ (pos (suc a / d)) in
    let r = neg_ℤ (pos (suc a % d)) in
    let (qp, qn) = neg_pos_parts (suc a / d) in
    let (rp, rn) = neg_pos_parts (suc a % d) in
    (
      r,
      eq_of_parts _ _ (
          omega (
            arith,
            +ℤ_parts (q *ℤ pos d) r,
            rp,
            rn,
            *ℤ_parts q (pos d),
            ap (λ t. t * d) qp,
            ap (λ t. t * d) qn,
          )),
      omega (arith, small, rp, rn),
    )

-- Held long or short, and filled the same way.
aligned :
    (position s : ℤ)
    → same_direction position s ≡ true
    → ((abs_ℤ position ≡ position) × (abs_ℤ s ≡ s))
      ⊎ ((abs_ℤ position ≡ neg_ℤ position) × (abs_ℤ s ≡ neg_ℤ s))
unfolding same_direction ◌-ℤ◌
aligned position s h = ground arith

+ℤ_pos : (a b : ℕ) → pos a +ℤ pos b ≡ pos (a + b)
+ℤ_pos a b = omega int_laws

-- The rounding in money, `slip`, of a division `n = q * d + r` that makes the average.
module _ (m price cost quot r position s : ℤ) where
  long_slip :
      (v : ℤ)
      → cost *ℤ position +ℤ price *ℤ s ≡ quot *ℤ (position +ℤ s) +ℤ r
      → v +ℤ (m -ℤ quot) *ℤ (position +ℤ s) ≡ v +ℤ (m -ℤ cost) *ℤ position +ℤ (m -ℤ price) *ℤ s +ℤ r
  long_slip v h =
      rw (-ℤ-*ℤ m quot (position +ℤ s), *ℤ-+ℤ m position s, -ℤ-*ℤ m cost position, -ℤ-*ℤ m price s)
        (omega (int_laws, ap pos_part h, ap neg_part h))

  short_slip :
      (v : ℤ)
      → cost *ℤ neg_ℤ position +ℤ price *ℤ neg_ℤ s ≡ quot *ℤ neg_ℤ (position +ℤ s) +ℤ r
      → v +ℤ (m -ℤ quot) *ℤ (position +ℤ s) +ℤ r ≡ v +ℤ (m -ℤ cost) *ℤ position +ℤ (m -ℤ price) *ℤ s
  short_slip v h =
      let e =
        sym (ap₂ ◌+ℤ◌ (*ℤ-neg cost position) (*ℤ-neg price s))
        ∙ h
        ∙ ap (λ t. t +ℤ r) (*ℤ-neg quot (position +ℤ s)) in
      rw (-ℤ-*ℤ m quot (position +ℤ s), *ℤ-+ℤ m position s, -ℤ-*ℤ m cost position, -ℤ-*ℤ m price s)
        (omega (int_laws, ap pos_part e, ap neg_part e))

division :
    (n a b : ℤ)
    → is_pos (abs_ℤ b) ≡ true
    → (r : ℤ) × (n ≡ quot_ℤ n (abs_ℤ a +ℤ abs_ℤ b) *ℤ (abs_ℤ a +ℤ abs_ℤ b) +ℤ r)
      × (abs_ℤ r <ℤ abs_ℤ a +ℤ abs_ℤ b)
division n a b h =
    rw (+ℤ_pos (pos_part a + neg_part a) (pos_part b + neg_part b))
      (quot_ℤ_lem n (pos_part a + neg_part a + (pos_part b + neg_part b)) (ground (arith, h)))

same_direction-pos : (position s : ℤ) → same_direction position s ≡ true → is_pos (abs_ℤ s) ≡ true
unfolding same_direction
same_direction-pos position s h = ground arith

same_direction-held :
    (position s : ℤ) → same_direction position s ≡ true → eqb_ℤ position (pos 0) ≡ false
unfolding same_direction
same_direction-held position s h = ground arith

abs-+ℤ :
    (position s : ℤ)
    → same_direction position s ≡ true
    → abs_ℤ (position +ℤ s) ≡ abs_ℤ position +ℤ abs_ℤ s
unfolding same_direction ◌+ℤ◌
abs-+ℤ position s h = ground arith

neg-+ℤ : (a b : ℤ) → neg_ℤ a +ℤ neg_ℤ b ≡ neg_ℤ (a +ℤ b)
neg-+ℤ a b = omega int_laws

add_neg : (a b r : ℤ) → a ≡ b +ℤ r → a +ℤ neg_ℤ r ≡ b
add_neg a b r h = omega (int_laws, ap pos_part h, ap neg_part h)

abs-neg : (r : ℤ) → abs_ℤ (neg_ℤ r) ≡ abs_ℤ r
unfolding ◌-ℤ◌
abs-neg r = ground arith

extend-average :
    (m price : Price) (s : Quantity) (p : Portfolio)
    → same_direction p.position s ≡ true
    → (slip : ℤ) × (total_pnl m (extend s price p) +ℤ slip ≡ total_pnl m p +ℤ (m -ℤ price) *ℤ s)
      × (abs_ℤ slip <ℤ abs_ℤ (extend s price p).position)
unfolding extend total_pnl
extend-average m price s p same =
    let P = p.position in
    let c = p.avg_cost in
    let Q = quot_ℤ (c *ℤ abs_ℤ P +ℤ price *ℤ abs_ℤ s) (abs_ℤ P +ℤ abs_ℤ s) in
    let (r, eq, small) =
      division (c *ℤ abs_ℤ P +ℤ price *ℤ abs_ℤ s) P s (same_direction-pos P s same) in
    let near : abs_ℤ r <ℤ abs_ℤ (P +ℤ s) =
      subst (λ t. abs_ℤ r <ℤ t) (sym (abs-+ℤ P s same)) small in
    rw (unrealized_pnl_lem m p, unrealized_pnl_lem m (extend s price p))
      (elim (aligned P s same) [
        | inl (eP, es) ↦
            let h =
              ap₂ (λ x y. c *ℤ x +ℤ price *ℤ y) (sym eP) (sym es)
              ∙ eq
              ∙ ap₂ (λ x y. Q *ℤ (x +ℤ y) +ℤ r) eP es in
            (
              neg_ℤ r,
              add_neg _ _ r (long_slip m price c Q r P s p.realized_pnl h),
              subst (λ t. t <ℤ abs_ℤ (P +ℤ s)) (sym (abs-neg r)) near,
            )
        | inr (eP, es) ↦
            let h =
              ap₂ (λ x y. c *ℤ x +ℤ price *ℤ y) (sym eP) (sym es)
              ∙ eq
              ∙ ap₂ (λ x y. Q *ℤ (x +ℤ y) +ℤ r) eP es
              ∙ ap (λ t. Q *ℤ t +ℤ r) (neg-+ℤ P s) in
            (r, short_slip m price c Q r P s p.realized_pnl h, near)
      ])

-- A fill in the direction of the position changes the total PnL, at every mark, by the signed
-- quantity times the distance from the fill's price to the mark, but for a rounding of the average
-- cost that is less than the size of the new position.
pub on_fill-average :
    (m : Price) (side : Side) (price : Price) (qty : Quantity) (p : Portfolio)
    → same_direction p.position (signed side qty) ≡ true
    → (slip : ℤ) × (total_pnl m (on_fill side price qty p) +ℤ slip
        ≡ total_pnl m p +ℤ (m -ℤ price) *ℤ signed side qty)
      × (abs_ℤ slip <ℤ abs_ℤ (on_fill side price qty p).position)
unfolding on_fill
on_fill-average m side price qty p same =
    let q : Portfolio = record p { gross_volume = p.gross_volume +ℤ qty } in
    rw (same_direction-held p.position (signed side qty) same, same)
      (rw (← total_pnl_volume m q.gross_volume p) (extend-average m price _ q same))
