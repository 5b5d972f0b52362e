-- ===== src/Book/Priority.antt =====
-- Price-time priority: which orders a taker meets, in which order, and at which prices.
use low_latency_hft_matching.Base.{
  ℕ, ◌+◌, ◌<◌, ◌^◌, ◌≡◌, refl, ap, ◌∙◌, sym, subst, ℤ, ◌-ℤ◌, is_pos, leb_ℤ, List, [], ◌∷◌, ◌++◌,
  true, false, some, arith, some-eq, Bool-cases, inl, inr,
}
use low_latency_hft_matching.Book.{OrderBook, side_of, opposite, rest_order, place_limit}
use low_latency_hft_matching.Book.Types.{
  Side, buy, sell, OrderNode, Trade, BookSide, Price, Quantity, Level,
}
use low_latency_hft_matching.Book.Levels.{before, cross}
use low_latency_hft_matching.Book.Greedy.{fill}
use low_latency_hft_matching.Book.Sweep.{flat, eligible, beyond, swept, flat-swept, flat-eligible}
use low_latency_hft_matching.Book.Sides.{IsSide, Ahead, AllGood, Ahead-trans}
use low_latency_hft_matching.Book.Valid.{IsValid, outcome, matched, place_limit_lem, side-IsSide}
use low_latency_hft_matching.Book.Resting.{after_place, after_place-IsValid}

abbrev pub All {ℓ κ} : {A : Type ℓ} → (A → Type κ) → List A → Type κ
All P [] = Unit
All P (x ∷ xs) = P x × All P xs

pub All-append {ℓ κ} :
    {A : Type ℓ} (P : A → Type κ) (xs ys : List A) → All P xs → All P ys → All P (xs ++ ys)
All-append P [] ys h k = k
All-append P (x ∷ xs) ys h k = (h.0, All-append P xs ys h.1 k)

pub All-mono {ℓ κ ι} :
    {A : Type ℓ} (P : A → Type κ) (Q : A → Type ι) (xs : List A)
    → ((x : A) → P x → Q x)
    → All P xs
    → All Q xs
All-mono P Q [] f h = tt
All-mono P Q (x ∷ xs) f h = (f x h.0, All-mono P Q xs f h.1)

-- No order of the list has a better price than one in front of it.
abbrev pub IsRanked : Side → List OrderNode → Type 0
IsRanked s [] = Unit {0}
IsRanked s (n ∷ ns) = All (λ o. before s o.price n.price ≡ false) ns × IsRanked s ns

before_asym : (s : Side) (p q : Price) → before s p q ≡ true → before s q p ≡ false
before_asym buy p q h = ground arith
before_asym sell p q h = ground arith

before_irrefl : (s : Side) (p q : Price) → p ≡ q → before s p q ≡ false
before_irrefl buy p q e = rw e (ground arith)
before_irrefl sell p q e = rw e (ground arith)

cross_behind :
    (s : Side) (p q limit : Price)
    → before s p q ≡ true
    → cross s p limit ≡ false
    → cross s q limit ≡ false
cross_behind buy p q limit h k = ground arith
cross_behind sell p q limit h k = ground arith

-- A fact about the price of a level holds of each of its orders.
pub level-All {ℓ} :
    (P : Price → Type ℓ) (s : Side) (px : Price) (lvl : Level)
    → AllGood s px lvl
    → P px
    → All (λ o. P o.price) lvl
level-All P s px [] g h = tt
level-All P s px (n ∷ ns) g h = (subst P (sym g.1) h, level-All P s px ns g.3 h)

pub flat-behind :
    (s : Side) (px : Price) (b : BookSide)
    → IsSide s b
    → Ahead s px b
    → All (λ o. before s px o.price ≡ true) (flat b)
unfolding flat
flat-behind s px [] w a = tt
flat-behind s px ((q, lvl) ∷ b) w a =
    All-append _ lvl (flat b) (level-All (λ p. before s px p ≡ true) s q lvl w.1 a)
      (flat-behind s px b w.3 (Ahead-trans s px q b a w.2))

level-IsRanked :
    (s : Side) (px : Price) (lvl rest : List OrderNode)
    → AllGood s px lvl
    → All (λ o. before s px o.price ≡ true) rest
    → IsRanked s rest
    → IsRanked s (lvl ++ rest)
level-IsRanked s px [] rest g h r = r
level-IsRanked s px (n ∷ ns) rest g h r = (
  All-append _ ns rest
      (level-All (λ p. before s p n.price ≡ false) s px ns g.3
        (before_irrefl s px n.price (sym g.1)))
      (All-mono _ _ rest
        (λ o k. before_asym s n.price o.price (subst (λ p. before s p o.price ≡ true) (sym g.1) k))
        h),
  level-IsRanked s px ns rest g.3 h r,
)

flat-IsRanked : (s : Side) (b : BookSide) → IsSide s b → IsRanked s (flat b)
unfolding flat
flat-IsRanked s [] w = tt
flat-IsRanked s ((px, lvl) ∷ b) w =
    level-IsRanked s px lvl (flat b) w.1 (flat-behind s px b w.3 w.2) (flat-IsRanked s b w.3)

eligible-cross :
    (s : Side) (limit : Price) (b : BookSide)
    → IsSide s b
    → All (λ o. cross s o.price limit ≡ true) (eligible s limit b)
unfolding eligible
eligible-cross s limit [] w = tt
eligible-cross s limit ((px, lvl) ∷ b) w = elim (Bool-cases (cross s px limit)) [
  | inl k ↦ rw k (
      All-append _ lvl (eligible s limit b) (level-All (λ p. cross s p limit ≡ true) s px lvl w.1 k)
        (eligible-cross s limit b w.3))
  | inr k ↦ rw k tt
]

beyond-cross :
    (s : Side) (limit : Price) (b : BookSide)
    → IsSide s b
    → All (λ o. cross s o.price limit ≡ false) (flat (beyond s limit b))
unfolding beyond flat
beyond-cross s limit [] w = tt
beyond-cross s limit ((px, lvl) ∷ b) w = elim (Bool-cases (cross s px limit)) [
  | inl k ↦ rw k (beyond-cross s limit b w.3)
  | inr k ↦ rw k (
      All-append _ lvl (flat b) (level-All (λ p. cross s p limit ≡ false) s px lvl w.1 k) (
        All-mono _ _ (flat b) (λ o h. cross_behind s px o.price limit h k)
          (flat-behind s px b w.3 w.2)))
]

-- On a valid book the orders that a taker may meet are those, and only those, whose price crosses
-- its limit; they come first in the queue of the side, and no order stands in front of a better
-- priced one.
pub eligible_lem :
    (side : Side) (limit : Price) (b : OrderBook)
    → IsValid b
    → let opp = opposite side in
      (flat (side_of opp b)
        ≡ eligible opp limit (side_of opp b) ++ flat (beyond opp limit (side_of opp b)))
      × All (λ o. cross opp o.price limit ≡ true) (eligible opp limit (side_of opp b))
      × All (λ o. cross opp o.price limit ≡ false) (flat (beyond opp limit (side_of opp b)))
      × IsRanked opp (flat (side_of opp b))
eligible_lem side limit b v =
    let opp = opposite side in
    let w = side-IsSide opp v in
    (
      flat-eligible opp limit (side_of opp b),
      eligible-cross opp limit _ w,
      beyond-cross opp limit _ w,
      flat-IsRanked opp _ w,
    )

fill-All {ℓ} :
    (P : Price → Type ℓ) (taker : ℕ) (q : ℤ) (os : List OrderNode)
    → All (λ o. P o.price) os
    → All (λ (t : Trade). (t.taker_id ≡ taker) × P t.price) (fill taker q os).trades
unfolding fill
fill-All P taker q [] h = tt
fill-All P taker q (o ∷ os) h = elim (Bool-cases (is_pos q)) [
  | inr stop ↦ rw stop tt
  | inl go ↦ elim (Bool-cases (leb_ℤ o.qty q)) [
    | inl full ↦ rw (go, full) ((refl, h.0), fill-All P taker (q -ℤ o.qty) os h.1)
    | inr part ↦ rw (go, part) ((refl, h.0), tt)
  ]
]

-- The own side of the book is not touched by matching.
pub matched-own :
    (side : Side) (price : Price) (qty : Quantity) (b : OrderBook)
    → side_of side (matched side price qty b) ≡ side_of side b
unfolding matched
matched-own buy price qty b = refl
matched-own sell price qty b = refl

pub matched-opp :
    (side : Side) (price : Price) (qty : Quantity) (b : OrderBook)
    → side_of (opposite side) (matched side price qty b)
      ≡ swept (opposite side) b.next_id price qty (side_of (opposite side) b)
unfolding matched
matched-opp buy price qty b = refl
matched-opp sell price qty b = refl

rest_order-opp :
    (side : Side) (id : ℕ) (price : Price) (qty : Quantity) (b : OrderBook)
    → side_of (opposite side) (rest_order side id price qty b) ≡ side_of (opposite side) b
unfolding rest_order
rest_order-opp buy id price qty b = ground arith
rest_order-opp sell id price qty b = ground arith

-- On a valid book `place_limit` ends, returns the next id, appends the trades that price-time
-- priority asks for, and leaves a valid book on whose other side exactly the orders are left that
-- the taker has not used up.
pub place_limit-Greedy :
    (side : Side) (price : Price) (qty : Quantity) (trades : List Trade) (b : OrderBook)
    → b.next_id + 1 < 2 ^ 64
    → IsValid b
    → let opp = opposite side in
      let o = fill b.next_id qty (eligible opp price (side_of opp b)) in
      (b' : OrderBook) × (place_limit side price qty trades b
        ≡ some (b.next_id, trades ++ o.trades, b'))
      × IsValid b'
      × (flat (side_of opp b') ≡ o.queue ++ flat (beyond opp price (side_of opp b)))
place_limit-Greedy side price qty trades b h v =
    let opp = opposite side in
    (
      after_place side price qty b,
      place_limit_lem side price qty trades b v,
      after_place-IsValid side price qty b h v,
      rw
          (
            rest_order-opp side b.next_id price (outcome side price qty b).left
                (matched side price qty b),
            matched-opp side price qty b,
          )
          (flat-swept opp b.next_id price qty (side_of opp b)),
    )

-- Every trade of a placement carries the new id and a price within the limit.
pub place_limit-prices :
    (side : Side) (price : Price) (qty : Quantity) (b : OrderBook)
    → IsValid b
    → (id : ℕ) (trades : List Trade) (b' : OrderBook)
    → place_limit side price qty [] b ≡ some (id, trades, b')
    → All (λ (t : Trade). (t.taker_id ≡ id) × (cross (opposite side) t.price price ≡ true)) trades
place_limit-prices side price qty b v id trades b' e =
    let k = some-eq (sym (place_limit_lem side price qty [] b v) ∙ e) in
    let i : b.next_id ≡ id = ap (λ r. r.0) k in
    let ts : (outcome side price qty b).trades ≡ trades = ap (λ r. r.1) k in
    rw (← i, ← ts)
      (fill-All (λ p. cross (opposite side) p price ≡ true) b.next_id qty _
        (eligible-cross (opposite side) price _ (side-IsSide (opposite side) v)))
