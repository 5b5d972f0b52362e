-- ===== src/Book/Leftover.antt =====
-- The signs of what a taker trades and has left.
use low_latency_hft_matching.Base.{
  ℕ, ℤ, pos, ◌-ℤ◌, ◌≤ℤ◌, is_pos, IsPos, leb_ℤ, List, [], ◌∷◌, int_laws, arith, Bool-cases, inl, inr,
}
use low_latency_hft_matching.Book.{OrderBook, opposite}
use low_latency_hft_matching.Book.Types.{Side, OrderNode, Trade, Level, BookSide, Price, Quantity}
use low_latency_hft_matching.Book.Levels.{cross}
use low_latency_hft_matching.Book.Greedy.{fill}
use low_latency_hft_matching.Book.Sweep.{eligible}
use low_latency_hft_matching.Book.Sides.{IsSide, AllGood}
use low_latency_hft_matching.Book.Valid.{IsValid, outcome, side-IsSide}
use low_latency_hft_matching.Book.Priority.{All, All-append}

-- Each trade is of a positive quantity, and nothing negative is left.
abbrev pub IsSound : List Trade → Quantity → Type 0
IsSound ts left = All (λ (t : Trade). IsPos t.qty) ts × (pos 0 ≤ℤ left)

fill-IsSound :
    (taker : ℕ) (q : ℤ) (os : List OrderNode)
    → pos 0 ≤ℤ q
    → All (λ (o : OrderNode). IsPos o.qty) os
    → IsSound (fill taker q os).trades (fill taker q os).left
unfolding fill
fill-IsSound taker q [] h a = (tt, h)
fill-IsSound taker q (o ∷ os) h a = elim (Bool-cases (is_pos q)) [
  | inr stop ↦ rw stop (tt, h)
  | inl go ↦ elim (Bool-cases (leb_ℤ o.qty q)) [
    | inl full ↦
        let less : o.qty ≤ℤ q = ground (arith, full) in
        let (ts, l) = fill-IsSound taker (q -ℤ o.qty) os (omega (int_laws, less)) a.1 in
        rw (go, full) ((a.0, ts), l)
    | inr part ↦ rw (go, part) ((ground (arith, go), tt), omega arith)
  ]
]

level-IsPos :
    (s : Side) (px : Price) (lvl : Level)
    → AllGood s px lvl
    → All (λ (o : OrderNode). IsPos o.qty) lvl
level-IsPos s px [] g = tt
level-IsPos s px (n ∷ ns) g = (g.2, level-IsPos s px ns g.3)

pub eligible-IsPos :
    (s : Side) (limit : Price) (b : BookSide)
    → IsSide s b
    → All (λ (o : OrderNode). IsPos o.qty) (eligible s limit b)
unfolding eligible
eligible-IsPos s limit [] w = tt
eligible-IsPos s limit ((px, lvl) ∷ b) w = elim (Bool-cases (cross s px limit)) [
  | inl k ↦ rw k (
      All-append _ lvl (eligible s limit b) (level-IsPos s px lvl w.1)
        (eligible-IsPos s limit b w.3))
  | inr k ↦ rw k tt
]

pub outcome-IsSound :
    (side : Side) (price : Price) (qty : Quantity) (b : OrderBook)
    → IsValid b
    → pos 0 ≤ℤ qty
    → IsSound (outcome side price qty b).trades (outcome side price qty b).left
outcome-IsSound side price qty b v h =
    fill-IsSound b.next_id qty _ h
      (eligible-IsPos (opposite side) price _ (side-IsSide (opposite side) v))
