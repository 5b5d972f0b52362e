-- ===== src/Portfolio/Settled.antt =====
-- A closed position leaves no average cost in the portfolio of mvp/src/backtest/portfolio.cpp.
use low_latency_hft_matching.Base.{
  ◌≡◌, refl, ℤ, pos, ◌+ℤ◌, ◌-ℤ◌, eqb_ℤ, ltb_ℤ, IsPos, true, false, Bool-cases, inl, inr, arith,
}
use low_latency_hft_matching.Book.Types.{Side, Price, Quantity}
use low_latency_hft_matching.Portfolio.{
  Portfolio, abs_ℤ, signed, same_direction, extend, reduce, on_fill,
}

-- The average cost means something only while a position is held: a flat portfolio has none.
abbrev pub IsSettled : Portfolio → Type 0
IsSettled p = eqb_ℤ p.position (pos 0) ≡ true → p.avg_cost ≡ pos 0

settled_held :
    (position cost : ℤ)
    → eqb_ℤ position (pos 0) ≡ false
    → eqb_ℤ position (pos 0) ≡ true
    → cost ≡ pos 0
settled_held position cost held flat = cc

signed_open : (side : Side) (qty : Quantity) → IsPos qty → eqb_ℤ (signed side qty) (pos 0) ≡ false
unfolding ◌-ℤ◌
signed_open side qty h = ground arith

partly_open :
    (position s : ℤ)
    → eqb_ℤ position (pos 0) ≡ false
    → ltb_ℤ (abs_ℤ s) (abs_ℤ position) ≡ true
    → eqb_ℤ (position +ℤ s) (pos 0) ≡ false
unfolding ◌+ℤ◌
partly_open position s held part = ground arith

flipped_open :
    (position s : ℤ)
    → eqb_ℤ (abs_ℤ s) (abs_ℤ position) ≡ false
    → eqb_ℤ (s +ℤ position) (pos 0) ≡ false
unfolding ◌+ℤ◌
flipped_open position s flip = ground arith

extended_open :
    (position s : ℤ) → same_direction position s ≡ true → eqb_ℤ (position +ℤ s) (pos 0) ≡ false
unfolding ◌+ℤ◌ same_direction
extended_open position s same = ground arith

reduce-IsSettled :
    (s : Quantity) (price : Price) (p : Portfolio)
    → eqb_ℤ p.position (pos 0) ≡ false
    → same_direction p.position s ≡ false
    → IsSettled (reduce s price p)
unfolding reduce
reduce-IsSettled s price p held against = elim (Bool-cases (ltb_ℤ (abs_ℤ s) (abs_ℤ p.position))) [
  | inl part ↦ rw part (settled_held (p.position +ℤ s) _ (partly_open p.position s held part))
  | inr whole ↦ elim (Bool-cases (eqb_ℤ (abs_ℤ s) (abs_ℤ p.position))) [
    | inl exact ↦ rw (whole, exact) (λ _. refl)
    | inr flip ↦
        rw (whole, flip) (settled_held (s +ℤ p.position) _ (flipped_open p.position s flip))
  ]
]

-- A fill of a positive quantity leaves no average cost behind when the position is closed.
pub on_fill-IsSettled :
    (side : Side) (price : Price) (qty : Quantity) (p : Portfolio)
    → IsPos qty
    → IsSettled (on_fill side price qty p)
unfolding on_fill extend
on_fill-IsSettled side price qty p h =
    let s = signed side qty in
    elim (Bool-cases (eqb_ℤ p.position (pos 0))) [
      | inl flat ↦ rw flat (settled_held s _ (signed_open side qty h))
      | inr held ↦ elim (Bool-cases (same_direction p.position s)) [
        | inl same ↦
            rw (held, same) (settled_held (p.position +ℤ s) _ (extended_open p.position s same))
        | inr against ↦ rw (held, against) (reduce-IsSettled s price _ held against)
      ]
    ]
