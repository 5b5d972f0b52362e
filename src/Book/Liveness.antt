-- ===== src/Book/Liveness.antt =====
-- How much a taker of mvp/src/order_book.cpp trades.
use low_latency_hft_matching.Base.{
  ℕ, ◌≡◌, refl, ◌∙◌, ℤ, pos, ◌+ℤ◌, ◌-ℤ◌, ◌≤ℤ◌, min_ℤ, min_ℤ_parts, sym, int_laws, arith, is_pos,
  IsPos, leb_ℤ, List, [], ◌∷◌, Bool-cases, inl, inr, ◌+◌, ◌^◌, ◌<◌, some,
}
use low_latency_hft_matching.Book.{OrderBook, side_of, opposite, place_limit}
use low_latency_hft_matching.Book.Types.{OrderNode, Trade, Quantity, Side, Price}
use low_latency_hft_matching.Book.Greedy.{fill}
use low_latency_hft_matching.Book.Sweep.{eligible}
use low_latency_hft_matching.Book.Valid.{IsValid, outcome, side-IsSide}
use low_latency_hft_matching.Book.Priority.{All, place_limit-Greedy}
use low_latency_hft_matching.Book.Quantities.{traded, total}
use low_latency_hft_matching.Book.Leftover.{eligible-IsPos}

total-nonneg : (os : List OrderNode) → All (λ (o : OrderNode). IsPos o.qty) os → pos 0 ≤ℤ total os
total-nonneg [] h = omega arith
total-nonneg (o ∷ os) h = omega (int_laws, h.0, total-nonneg os h.1)

min_whole : (a q t : ℤ) → a +ℤ min_ℤ (q -ℤ a) t ≡ min_ℤ q (a +ℤ t)
min_whole a q t = elim (min_ℤ_parts (q -ℤ a) t) [
  | inl (le, e) ↦ elim (min_ℤ_parts q (a +ℤ t)) [
    | inl (_, f) ↦ rw (e, f) (omega int_laws)
    | inr (lt, f) ↦ absurd (omega (int_laws, le, lt))
  ]
  | inr (lt, e) ↦ elim (min_ℤ_parts q (a +ℤ t)) [
    | inl (le, f) ↦ absurd (omega (int_laws, le, lt))
    | inr (_, f) ↦ rw (e, f) refl
  ]
]

min_first : (q t : ℤ) → q ≤ℤ t → q ≡ min_ℤ q t
min_first q t h = elim (min_ℤ_parts q t) [
  | inl (_, e) ↦ sym e
  | inr (lt, e) ↦ absurd (omega (arith, h, lt))
]

min_zero : (q : ℤ) → pos 0 ≤ℤ q → pos 0 ≡ min_ℤ q (pos 0)
min_zero q h = elim (min_ℤ_parts q (pos 0)) [
  | inl (le, e) ↦ omega (int_laws, h, le) ∙ sym e
  | inr (_, e) ↦ sym e
]

fill-min :
    (taker : ℕ) (q : ℤ) (os : List OrderNode)
    → pos 0 ≤ℤ q
    → All (λ (o : OrderNode). IsPos o.qty) os
    → traded (fill taker q os).trades ≡ min_ℤ q (total os)
unfolding fill
fill-min taker q [] h a = min_zero q h
fill-min taker q (o ∷ os) h a = elim (Bool-cases (is_pos q)) [
  | inr stop ↦
      let none_left : q ≤ℤ pos 0 = ground (arith, stop) in
      rw stop (
        omega (int_laws, h, none_left)
        ∙ min_first q (total (o ∷ os)) (omega (int_laws, none_left, a.0, total-nonneg os a.1)))
  | inl go ↦ elim (Bool-cases (leb_ℤ o.qty q)) [
    | inl full ↦
        let less : o.qty ≤ℤ q = ground (arith, full) in
        rw (go, full, fill-min taker (q -ℤ o.qty) os (omega (int_laws, less)) a.1)
          (min_whole o.qty q (total os))
    | inr part ↦
        let less : q ≤ℤ o.qty = ground (arith, part) in
        rw (go, part)
          (omega int_laws
            ∙ min_first q (total (o ∷ os)) (omega (int_laws, less, total-nonneg os a.1)))
  ]
]

-- On a valid book an order of no negative quantity is placed, and trades as much as there is for it:
-- its whole quantity if the orders that cross it have as much, and all of theirs otherwise.
pub place_limit-min :
    (side : Side) (price : Price) (qty : Quantity) (b : OrderBook)
    → b.next_id + 1 < 2 ^ 64
    → IsValid b
    → pos 0 ≤ℤ qty
    → let opp = opposite side in
      (trades : List Trade) × (b' : OrderBook) × (place_limit side price qty [] b
        ≡ some (b.next_id, trades, b'))
      × (traded trades ≡ min_ℤ qty (total (eligible opp price (side_of opp b))))
place_limit-min side price qty b h v n =
    let opp = opposite side in
    let (b', e, _, _) = place_limit-Greedy side price qty [] b h v in
    (
      (outcome side price qty b).trades,
      b',
      e,
      fill-min b.next_id qty _ n (eligible-IsPos opp price _ (side-IsSide opp v)),
    )
