-- ===== src/Book/Ranking.antt =====
-- `place_limit` of mvp/src/order_book.cpp against the limit price and the ranks of the resting orders,
-- both stated without the book's own tests.
use low_latency_hft_matching.Base.{
  ◌+◌, ◌<◌, ◌^◌, ◌≡◌, refl, ap, ap₂, ◌∙◌, sym, ◌≤ℤ◌, leb_ℤ, List, [], ◌∷◌, ◌++◌, append-nil, Bool,
  not, true, false, some, if◌then◌else◌, arith,
}
use low_latency_hft_matching.Book.{OrderBook, side_of, opposite, place_limit}
use low_latency_hft_matching.Book.Types.{Side, buy, sell, OrderNode, Price, Quantity}
use low_latency_hft_matching.Book.Levels.{cross}
use low_latency_hft_matching.Book.Greedy.{fill}
use low_latency_hft_matching.Book.Sweep.{flat, eligible, beyond}
use low_latency_hft_matching.Book.Valid.{IsValid}
use low_latency_hft_matching.Book.Priority.{
  All, All-mono, IsRanked, place_limit-Greedy, eligible_lem,
}

-- A buyer trades with the asks at its limit or below, a seller with the bids at its limit or above.
abbrev pub is_within : Side → Price → OrderNode → Bool
is_within buy limit o = leb_ℤ o.price limit
is_within sell limit o = leb_ℤ limit o.price

abbrev pub keep : (OrderNode → Bool) → List OrderNode → List OrderNode
keep p [] = []
keep p (o ∷ os) = let rest = keep p os in if p o then o ∷ rest else rest

-- The asks that a buyer meets do not fall from the head on, the bids that a seller meets do not rise.
abbrev pub IsBestFirst : Side → List OrderNode → Type 0
IsBestFirst side [] = Unit {0}
IsBestFirst buy (n ∷ ns) = All (λ o. n.price ≤ℤ o.price) ns × IsBestFirst buy ns
IsBestFirst sell (n ∷ ns) = All (λ o. o.price ≤ℤ n.price) ns × IsBestFirst sell ns

keep-append :
    (p : OrderNode → Bool) (xs ys : List OrderNode) → keep p (xs ++ ys) ≡ keep p xs ++ keep p ys
keep-append p [] ys = refl
keep-append p (x ∷ xs) ys = rw (keep-append p xs ys) (kept (p x))
  where
    kept :
        (t : Bool)
        → (if t then x ∷ (keep p xs ++ keep p ys) else keep p xs ++ keep p ys)
          ≡ (if t then x ∷ keep p xs else keep p xs) ++ keep p ys
    kept true = refl
    kept false = refl

keep-All : (p : OrderNode → Bool) (xs : List OrderNode) → All (λ o. p o ≡ true) xs → keep p xs ≡ xs
keep-All p [] h = refl
keep-All p (x ∷ xs) h = rw (h.0, keep-All p xs h.1) refl

keep_none :
    (p : OrderNode → Bool) (xs : List OrderNode) → All (λ o. p o ≡ false) xs → keep p xs ≡ []
keep_none p [] h = refl
keep_none p (x ∷ xs) h = rw (h.0) (keep_none p xs h.1)

-- The book's test is that of the limit.
cross-is_within :
    (side : Side) (limit : Price) (o : OrderNode)
    → cross (opposite side) o.price limit ≡ is_within side limit o
cross-is_within buy limit o = refl
cross-is_within sell limit o = refl

ranked-IsBestFirst :
    (side : Side) (ns : List OrderNode) → IsRanked (opposite side) ns → IsBestFirst side ns
ranked-IsBestFirst side [] h = tt
ranked-IsBestFirst buy (n ∷ ns) h =
    (All-mono _ _ ns (λ o k. ground (arith, k)) h.0, ranked-IsBestFirst buy ns h.1)
ranked-IsBestFirst sell (n ∷ ns) h =
    (All-mono _ _ ns (λ o k. ground (arith, k)) h.0, ranked-IsBestFirst sell ns h.1)

-- A list that a test splits into its front and its back.
keep-split :
    (p : OrderNode → Bool) (os front back : List OrderNode)
    → os ≡ front ++ back
    → All (λ o. p o ≡ true) front
    → All (λ o. p o ≡ false) back
    → (keep p os ≡ front) × (keep (λ o. not (p o)) os ≡ back)
keep-split p os front back e f g = (
  ap (keep p) e
      ∙ keep-append p front back
      ∙ ap₂ ◌++◌ (keep-All p front f) (keep_none p back g)
      ∙ append-nil front,
  ap (keep (λ o. not (p o))) e
      ∙ keep-append (λ o. not (p o)) front back
      ∙ ap₂ ◌++◌ (keep_none (λ o. not (p o)) front (All-mono _ _ front (λ o k. ap not k) f))
          (keep-All (λ o. not (p o)) back (All-mono _ _ back (λ o k. ap not k) g)),
)

-- On a valid book a placement trades with the orders of the other side whose prices are within its
-- limit, and with no others: it eats them in the order of the queue, in which the best price stands
-- first, as far as its quantity reaches. What it leaves of them and the orders beyond the limit are
-- what the other side has afterwards.
pub place_limit-ranked :
    (side : Side) (price : Price) (qty : Quantity) (b : OrderBook)
    → b.next_id + 1 < 2 ^ 64
    → IsValid b
    → let queue = flat (side_of (opposite side) b) in
      let o = fill b.next_id qty (keep (is_within side price) queue) in
      IsBestFirst side queue
      × (b' : OrderBook) × (place_limit side price qty [] b ≡ some (b.next_id, o.trades, b'))
      × (flat (side_of (opposite side) b')
          ≡ o.queue ++ keep (λ n. not (is_within side price n)) queue)
place_limit-ranked side price qty b h v =
    let opp = opposite side in
    let front = eligible opp price (side_of opp b) in
    let back = flat (beyond opp price (side_of opp b)) in
    let (split, crossing, others, ranked) = eligible_lem side price b v in
    let (b', e, _, rest) = place_limit-Greedy side price qty [] b h v in
    let same = cross-is_within side price in
    let (near, far) =
      keep-split (is_within side price) (flat (side_of opp b)) front back split
        (All-mono _ _ front (λ o k. sym (same o) ∙ k) crossing)
        (All-mono _ _ back (λ o k. sym (same o) ∙ k) others) in
    (ranked-IsBestFirst side _ ranked, b', rw near e, rw (near, far) rest)
