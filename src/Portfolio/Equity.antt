-- ===== src/Portfolio/Equity.antt =====
-- What the fills of mvp/src/backtest/portfolio.cpp do to the position and to the total PnL.
use low_latency_hft_matching.Base.{
  ◌≡◌, refl, ap, sym, ◌∙◌, ℤ, pos, ◌+ℤ◌, ◌-ℤ◌, ◌*ℤ◌, eqb_ℤ, ltb_ℤ, is_pos, min_ℤ, ◌<ℤ◌, ◌≤ℤ◌, true,
  false, Bool-cases, ◌⊎◌, inl, inr, if◌then◌else◌, +ℤ_parts, int_laws, arith, eq_of_parts, eqb_ℤ→eq,
}
use low_latency_hft_matching.Book.Types.{Side, Price, Quantity}
use low_latency_hft_matching.Portfolio.{
  Portfolio, neg_ℤ, abs_ℤ, signed, same_direction, extend, reduce, on_fill, unrealized_pnl,
  total_pnl,
}
use low_latency_hft_matching.Portfolio.Products.{*ℤ-+ℤ, *ℤ-neg, *ℤ_zero, -ℤ-*ℤ}

swap_signs : (a b c : ℤ) → (a -ℤ b) *ℤ c ≡ (b -ℤ a) *ℤ neg_ℤ c
swap_signs a b c = rw (-ℤ-*ℤ a b c, *ℤ-neg (b -ℤ a) c, -ℤ-*ℤ b a c) (omega int_laws)

-- `unrealized_pnl` is, for a long, a short and no position alike, the distance from the average cost
-- to the mark times the position.
pub unrealized_pnl_lem :
    (mark : Price) (p : Portfolio) → unrealized_pnl mark p ≡ (mark -ℤ p.avg_cost) *ℤ p.position
unfolding unrealized_pnl
unrealized_pnl_lem mark p = elim (Bool-cases (eqb_ℤ p.position (pos 0))) [
  | inl flat ↦ rw (eqb_ℤ→eq p.position (pos 0) flat) (sym (*ℤ_zero (mark -ℤ p.avg_cost)))
  | inr held ↦ elim (Bool-cases (is_pos p.position)) [
    | inl long ↦ rw (held, long) refl
    | inr short ↦ rw (held, short) (sym (swap_signs mark p.avg_cost p.position))
  ]
]

-- A fill against a position that is held: it is long and sold, or short and bought.
opposite :
    (position s : ℤ)
    → eqb_ℤ position (pos 0) ≡ false
    → same_direction position s ≡ false
    → ((is_pos position ≡ true) × (s ≤ℤ pos 0))
      ⊎ ((is_pos position ≡ false) × (position <ℤ pos 0) × (pos 0 ≤ℤ s))
unfolding same_direction
opposite position s held h = ground arith

-- The part of the position that the fill closes, with the position's sign.
abbrev closing : Quantity → Quantity → Quantity
closing position s =
    let closed = min_ℤ (abs_ℤ position) (abs_ℤ s) in
    if is_pos position then closed else neg_ℤ closed

closing_partly :
    (position s : ℤ)
    → eqb_ℤ position (pos 0) ≡ false
    → same_direction position s ≡ false
    → ltb_ℤ (abs_ℤ s) (abs_ℤ position) ≡ true
    → closing position s ≡ neg_ℤ s
unfolding min_ℤ ◌-ℤ◌
closing_partly position s held h part = elim (opposite position s held h) [
  | inl (long, le) ↦ ground arith
  | inr (short, neg, ge) ↦ ground arith
]

closing_whole :
    (position s : ℤ)
    → eqb_ℤ position (pos 0) ≡ false
    → same_direction position s ≡ false
    → ltb_ℤ (abs_ℤ s) (abs_ℤ position) ≡ false
    → closing position s ≡ position
unfolding min_ℤ ◌-ℤ◌
closing_whole position s held h whole = elim (opposite position s held h) [
  | inl (long, le) ↦ ground arith
  | inr (short, neg, ge) ↦ ground arith
]

pnl-closing :
    (position s price cost : ℤ)
    → (if is_pos position then price -ℤ cost else cost -ℤ price) *ℤ min_ℤ (abs_ℤ position) (abs_ℤ s)
      ≡ (price -ℤ cost) *ℤ closing position s
pnl-closing position s price cost = elim (Bool-cases (is_pos position)) [
  | inl long ↦ rw long refl
  | inr short ↦ rw short (swap_signs cost price _)
]

-- A fill that closes as much as is held leaves the sum at 0.
exact_close :
    (position s : ℤ)
    → eqb_ℤ position (pos 0) ≡ false
    → same_direction position s ≡ false
    → eqb_ℤ (abs_ℤ s) (abs_ℤ position) ≡ true
    → position +ℤ s ≡ pos 0
exact_close position s held h exact = elim (opposite position s held h) [
  | inl (long, le) ↦ ground (arith, +ℤ_parts position s, eq_of_parts (position +ℤ s) (pos 0))
  | inr (short, neg, ge) ↦ ground (arith, +ℤ_parts position s, eq_of_parts (position +ℤ s) (pos 0))
]

+ℤ_comm : (a b : ℤ) → a +ℤ b ≡ b +ℤ a
+ℤ_comm a b = omega int_laws

reduce-position :
    (s : Quantity) (price : Price) (p : Portfolio)
    → eqb_ℤ p.position (pos 0) ≡ false
    → same_direction p.position s ≡ false
    → ((reduce s price p).position ≡ p.position +ℤ s)
      × ((reduce s price p).gross_volume ≡ p.gross_volume)
unfolding reduce
reduce-position s price p held against = elim (Bool-cases (ltb_ℤ (abs_ℤ s) (abs_ℤ p.position))) [
  | inl part ↦ rw part (refl, refl)
  | inr whole ↦ elim (Bool-cases (eqb_ℤ (abs_ℤ s) (abs_ℤ p.position))) [
    | inl exact ↦ rw (whole, exact) (sym (exact_close p.position s held against exact), refl)
    | inr flip ↦ rw (whole, flip) (+ℤ_comm s p.position, refl)
  ]
]

-- Every fill moves the position by the signed quantity and the gross volume by the quantity.
pub on_fill-position :
    (side : Side) (price : Price) (qty : Quantity) (p : Portfolio)
    → ((on_fill side price qty p).position ≡ p.position +ℤ signed side qty)
      × ((on_fill side price qty p).gross_volume ≡ p.gross_volume +ℤ qty)
unfolding on_fill extend
on_fill-position side price qty p =
    let s = signed side qty in
    elim (Bool-cases (eqb_ℤ p.position (pos 0))) [
      | inl flat ↦ rw (flat, eqb_ℤ→eq p.position (pos 0) flat) (omega int_laws, refl)
      | inr held ↦ elim (Bool-cases (same_direction p.position s)) [
        | inl same ↦ rw (held, same) (refl, refl)
        | inr against ↦ rw (held, against) (reduce-position s price _ held against)
      ]
    ]

module _ (m price cost : ℤ) where
  partly_equity :
      (r position s : ℤ)
      → r +ℤ (price -ℤ cost) *ℤ neg_ℤ s +ℤ (m -ℤ cost) *ℤ (position +ℤ s)
        ≡ r +ℤ (m -ℤ cost) *ℤ position +ℤ (m -ℤ price) *ℤ s
  partly_equity r position s =
      rw
        (
          *ℤ-neg (price -ℤ cost) s,
          *ℤ-+ℤ (m -ℤ cost) position s,
          -ℤ-*ℤ price cost s,
          -ℤ-*ℤ m cost s,
          -ℤ-*ℤ m price s,
        )
        (omega int_laws)

  whole_equity :
      (r position s : ℤ)
      → r +ℤ (price -ℤ cost) *ℤ position +ℤ (m -ℤ price) *ℤ (position +ℤ s)
        ≡ r +ℤ (m -ℤ cost) *ℤ position +ℤ (m -ℤ price) *ℤ s
  whole_equity r position s =
      rw
        (
          *ℤ-+ℤ (m -ℤ price) position s,
          -ℤ-*ℤ price cost position,
          -ℤ-*ℤ m cost position,
          -ℤ-*ℤ m price position,
        )
        (omega int_laws)

reduce-equity :
    (m price : Price) (s : Quantity) (p : Portfolio)
    → eqb_ℤ p.position (pos 0) ≡ false
    → same_direction p.position s ≡ false
    → total_pnl m (reduce s price p) ≡ total_pnl m p +ℤ (m -ℤ price) *ℤ s
unfolding reduce total_pnl
reduce-equity m price s p held against =
    let P = p.position in
    rw (unrealized_pnl_lem m p, unrealized_pnl_lem m (reduce s price p))
      (elim (Bool-cases (ltb_ℤ (abs_ℤ s) (abs_ℤ P))) [
        | inl part ↦
            rw (part, pnl-closing P s price p.avg_cost, closing_partly P s held against part)
              (partly_equity m price p.avg_cost p.realized_pnl P s)
        | inr whole ↦ elim (Bool-cases (eqb_ℤ (abs_ℤ s) (abs_ℤ P))) [
          | inl exact ↦
              rw
                (
                  whole,
                  exact,
                  pnl-closing P s price p.avg_cost,
                  closing_whole P s held against whole,
                )
                (ap (λ t. p.realized_pnl +ℤ (price -ℤ p.avg_cost) *ℤ P +ℤ t)
                    (*ℤ_zero (m -ℤ pos 0)
                      ∙ sym (*ℤ_zero (m -ℤ price))
                      ∙ ap (λ t. (m -ℤ price) *ℤ t) (sym (exact_close P s held against exact)))
                  ∙ whole_equity m price p.avg_cost p.realized_pnl P s)
          | inr flip ↦
              rw
                (
                  whole,
                  flip,
                  pnl-closing P s price p.avg_cost,
                  closing_whole P s held against whole,
                  +ℤ_comm s P,
                )
                (whole_equity m price p.avg_cost p.realized_pnl P s)
        ]
      ])

unrealized_pnl_flat :
    (m : Price) (p : Portfolio) → eqb_ℤ p.position (pos 0) ≡ true → unrealized_pnl m p ≡ pos 0
unfolding unrealized_pnl
unrealized_pnl_flat m p flat = rw flat refl

pub total_pnl_volume :
    (m : Price) (v : ℤ) (p : Portfolio)
    → total_pnl m (record p { gross_volume = v }) ≡ total_pnl m p
unfolding total_pnl unrealized_pnl
total_pnl_volume m v p = refl

-- Opening: the product that the new position is worth.
open_equity :
    (m price : Price) (s : Quantity) (p : Portfolio)
    → eqb_ℤ p.position (pos 0) ≡ true
    → total_pnl m (record p { position = s; avg_cost = price }) ≡ total_pnl m p +ℤ (m -ℤ price) *ℤ s
unfolding total_pnl
open_equity m price s p flat =
    rw
      (
        unrealized_pnl_flat m p flat,
        unrealized_pnl_lem m (record p { position = s; avg_cost = price }),
      )
      (omega int_laws)

-- A fill that opens, reduces, closes or flips the position changes the total PnL, at every mark, by
-- exactly the signed quantity times the distance from the fill's price to the mark: realizing a
-- profit creates and loses nothing.
pub on_fill-equity :
    (m : Price) (side : Side) (price : Price) (qty : Quantity) (p : Portfolio)
    → same_direction p.position (signed side qty) ≡ false
    → total_pnl m (on_fill side price qty p) ≡ total_pnl m p +ℤ (m -ℤ price) *ℤ signed side qty
unfolding on_fill
on_fill-equity m side price qty p against =
    let q : Portfolio = record p { gross_volume = p.gross_volume +ℤ qty } in
    elim (Bool-cases (eqb_ℤ p.position (pos 0))) [
      | inl flat ↦
          rw flat (rw (← total_pnl_volume m q.gross_volume p) (open_equity m price _ q flat))
      | inr held ↦
          rw (held, against)
            (rw (← total_pnl_volume m q.gross_volume p) (reduce-equity m price _ q held against))
    ]
