-- ===== src/Book/Quantities.antt =====
-- Quantities: what trades, what is left over and what rests add up.
use low_latency_hft_matching.Book.Priority.{place_limit-Greedy}
use low_latency_hft_matching.Book.Valid.{IsValid, outcome}
use low_latency_hft_matching.Book.Sweep.{flat, eligible, beyond, flat-eligible}
use low_latency_hft_matching.Base.{
  ℕ, ◌≡◌, ap, ◌∙◌, ℤ, pos, ◌+ℤ◌, ◌-ℤ◌, int_laws, pos_part, neg_part, is_pos, leb_ℤ, List, [], ◌∷◌,
  Bool-cases, inl, inr, ◌++◌, ◌+◌, ◌^◌, ◌<◌, some,
}
use low_latency_hft_matching.Book.{sum_from, sum_level, OrderBook, side_of, opposite, place_limit}
use low_latency_hft_matching.Book.Types.{OrderNode, Trade, Quantity, Level, Side, Price}
use low_latency_hft_matching.Book.Greedy.{fill}

-- The quantity of a list of trades, and of a list of orders.
abbrev pub traded : List Trade → Quantity
traded [] = pos 0
traded (t ∷ ts) = t.qty +ℤ traded ts

abbrev pub total : List OrderNode → Quantity
total [] = pos 0
total (n ∷ ns) = n.qty +ℤ total ns

regroup : (a t l q : ℤ) → t +ℤ l ≡ q -ℤ a → a +ℤ t +ℤ l ≡ q
regroup a t l q h = omega (int_laws, ap pos_part h, ap neg_part h)

pub +ℤ-assoc_eq : (a t u s : ℤ) → t +ℤ u ≡ s → a +ℤ t +ℤ u ≡ a +ℤ s
+ℤ-assoc_eq a t u s h = rw (← h) (omega int_laws)

-- The taker's quantity is what it traded and what it has left; what the queue loses is what traded.
pub fill_conserves :
    (taker : ℕ) (q : ℤ) (os : List OrderNode)
    → let o = fill taker q os in
      (traded o.trades +ℤ o.left ≡ q) × (traded o.trades +ℤ total o.queue ≡ total os)
unfolding fill
fill_conserves taker q [] = omega int_laws
fill_conserves taker q (o ∷ os) = elim (Bool-cases (is_pos q)) [
  | inr stop ↦ rw stop (omega int_laws, omega int_laws)
  | inl go ↦ elim (Bool-cases (leb_ℤ o.qty q)) [
    | inl full ↦
        let ih = fill_conserves taker (q -ℤ o.qty) os in
        rw (go, full) (regroup o.qty _ _ q ih.0, +ℤ-assoc_eq o.qty _ _ (total os) ih.1)
    | inr part ↦ rw (go, part) (omega int_laws, omega int_laws)
  ]
]

sum_from-total : (q : Quantity) (lvl : Level) → sum_from q lvl ≡ q +ℤ total lvl
unfolding sum_from
sum_from-total q [] = omega int_laws
sum_from-total q (n ∷ ns) = sum_from-total (q +ℤ n.qty) ns ∙ omega int_laws

pub sum_level-total : (lvl : Level) → sum_level lvl ≡ total lvl
unfolding sum_level
sum_level-total lvl = sum_from-total (pos 0) lvl ∙ omega int_laws

pub total-append : (xs ys : List OrderNode) → total (xs ++ ys) ≡ total xs +ℤ total ys
total-append [] ys = omega int_laws
total-append (x ∷ xs) ys = rw (total-append xs ys) (omega int_laws)

conserve_behind : (t q b e : ℤ) → t +ℤ q ≡ e → t +ℤ (q +ℤ b) ≡ e +ℤ b
conserve_behind t q b e h = rw (← h) (omega int_laws)

-- On a valid book the quantity of a placed order is what it trades and what it has left, and the
-- other side loses exactly what is traded.
pub place_limit-conserves :
    (side : Side) (price : Price) (qty : Quantity) (b : OrderBook)
    → b.next_id + 1 < 2 ^ 64
    → IsValid b
    → (trades : List Trade) × (b' : OrderBook) × (place_limit side price qty [] b
        ≡ some (b.next_id, trades, b'))
      × (traded trades +ℤ (outcome side price qty b).left ≡ qty)
      × (traded trades +ℤ total (flat (side_of (opposite side) b'))
          ≡ total (flat (side_of (opposite side) b)))
place_limit-conserves side price qty b h v =
    let opp = opposite side in
    let o = outcome side price qty b in
    let front = eligible opp price (side_of opp b) in
    let back = flat (beyond opp price (side_of opp b)) in
    let (b', e, _, rest) = place_limit-Greedy side price qty [] b h v in
    let (c, d) = fill_conserves b.next_id qty front in
    (
      o.trades,
      b',
      e,
      c,
      rw
          (
            rest,
            flat-eligible opp price (side_of opp b),
            total-append o.queue back,
            total-append front back,
          )
          (conserve_behind (traded o.trades) (total o.queue) (total back) (total front) d),
    )
