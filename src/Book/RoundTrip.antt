-- ===== src/Book/RoundTrip.antt =====
-- Placing an order that rests, and cancelling it.
use low_latency_hft_matching.Base.{
  ℕ, ◌+◌, ◌^◌, ◌<◌, ◌≡◌, ap, ◌∙◌, sym, IsPos, is_pos, List, [], ◌∷◌, ◌++◌, true, false, none, some,
  arith, inl, inr, append_assoc, lt→ltb,
}
use low_latency_hft_matching.Book.{OrderBook, place_limit, cancel, side_of, opposite, rest_order}
use low_latency_hft_matching.Book.Types.{
  Side, buy, sell, OrderNode, Price, Quantity, PoolCount, acquire,
}
use low_latency_hft_matching.Book.Greedy.{fill, untouched}
use low_latency_hft_matching.Book.Sweep.{flat, eligible, flat-swept, flat-eligible}
use low_latency_hft_matching.Book.Tracks.{locate, locate_head}
use low_latency_hft_matching.Book.Valid.{IsValid, resting, outcome, matched, place_limit_lem}
use low_latency_hft_matching.Book.Resting.{rested, flat-push_at, after_place, after_place-IsValid}
use low_latency_hft_matching.Book.Cancelling.{cancel_lem, unlink-middle}

-- An order that meets nobody leaves the queues as they are.
matched_idle :
    (side : Side) (price : Price) (qty : Quantity) (b : OrderBook)
    → eligible (opposite side) price (side_of (opposite side) b) ≡ []
    → (outcome side price qty b ≡ untouched qty [])
      × (resting (matched side price qty b) ≡ resting b)
      × ((matched side price qty b).pool ≡ b.pool)
unfolding matched fill
matched_idle buy price qty b h = (
  rw h,
  ap (λ l. flat b.bids ++ l)
      (rw (flat-swept sell b.next_id price qty b.asks, h)
        (sym (rw h at (flat-eligible sell price b.asks)))),
  rw h,
)
matched_idle sell price qty b h = (
  rw h,
  ap (λ l. l ++ flat b.asks)
      (rw (flat-swept buy b.next_id price qty b.bids, h)
        (sym (rw h at (flat-eligible buy price b.bids)))),
  rw h,
)

-- An order that rests stands somewhere among the others.
resting-rest_order :
    (side : Side) (id : ℕ) (price : Price) (qty : Quantity) (b : OrderBook) (pool : PoolCount)
    → is_pos qty ≡ true
    → acquire b.pool ≡ some pool
    → (xs : List OrderNode) × (ys : List OrderNode) × (resting b ≡ xs ++ ys)
      × (resting (rest_order side id price qty b) ≡ xs ++ rested side id price qty b ∷ ys)
unfolding rest_order
resting-rest_order buy id price qty b pool h got =
    let (xs, ys, e, e') = flat-push_at buy price (rested buy id price qty b) b.bids in
    (xs, ys ++ flat b.asks, rw (e, append_assoc), rw (h, got, e', append_assoc))
resting-rest_order sell id price qty b pool h got =
    let (xs, ys, e, e') = flat-push_at sell price (rested sell id price qty b) b.asks in
    (flat b.bids ++ xs, ys, rw (e, append_assoc), rw (h, got, e', append_assoc))

acquire_room :
    (p : PoolCount) → p.in_use < p.capacity → acquire p ≡ some (record p { in_use = p.in_use + 1 })
unfolding acquire
acquire_room p h = ground arith

cancel_gone :
    (id : ℕ) (b : OrderBook) → IsValid b → locate id (resting b) ≡ none → (cancel id b).0 ≡ false
cancel_gone id b v gone = elim (cancel_lem id b v) [
  | inl (_, e) ↦ ap (λ r. r.0) e
  | inr ((r, there), _, _, _, _) ↦ cc
]

-- Cancelling an order that stands somewhere among the others.
cancel_middle :
    (n : OrderNode) (xs ys : List OrderNode) (b : OrderBook)
    → IsValid b
    → resting b ≡ xs ++ n ∷ ys
    → ((cancel n.id b).0 ≡ true)
      × (resting (cancel n.id b).1 ≡ xs ++ ys)
      × ((cancel n.id (cancel n.id b).1).0 ≡ false)
cancel_middle n xs ys b v e = elim (cancel_lem n.id b v) [
  | inl (missing, _) ↦
      let there = locate_head n xs ys in
      let missing' : locate n.id (xs ++ n ∷ ys) ≡ none = rw e at missing in
      absurd (ground (arith, there, missing'))
  | inr (_, done, left, v', gone) ↦ (
    done,
    left ∙ rw e (unlink-middle n xs ys (rw e at v.tracks.distinct)),
    cancel_gone n.id _ v' gone,
  )
]

-- On a valid book, an order of positive quantity that crosses no order and finds a free slot rests
-- without a trade; cancelling it succeeds, gives back the queues as they were, and succeeds once.
pub cancel-place_limit :
    (side : Side) (price : Price) (qty : Quantity) (b : OrderBook)
    → b.next_id + 1 < 2 ^ 64
    → IsValid b
    → eligible (opposite side) price (side_of (opposite side) b) ≡ []
    → IsPos qty
    → b.pool.in_use < b.pool.capacity
    → (b' : OrderBook) × (place_limit side price qty [] b ≡ some (b.next_id, [], b'))
      × ((cancel b.next_id b').0 ≡ true)
      × (resting (cancel b.next_id b').1 ≡ resting b)
      × ((cancel b.next_id (cancel b.next_id b').1).0 ≡ false)
cancel-place_limit side price qty b h v idle positive room =
    let m = matched side price qty b in
    let (out, same, pool) = matched_idle side price qty b idle in
    let left : (outcome side price qty b).left ≡ qty = ap (λ o. o.left) out in
    let got : acquire m.pool ≡ some (record b.pool { in_use = b.pool.in_use + 1 }) =
      ap acquire pool ∙ acquire_room b.pool room in
    let (xs, ys, e, e') =
      resting-rest_order side b.next_id price (outcome side price qty b).left m _
        (rw left (lt→ltb _ _ positive)) got in
    let n = rested side b.next_id price (outcome side price qty b).left m in
    let (done, back, once) =
      cancel_middle n xs ys (after_place side price qty b)
        (after_place-IsValid side price qty b h v) e' in
    (
      after_place side price qty b,
      place_limit_lem side price qty [] b v
          ∙ ap (λ ts. some (b.next_id, ts, after_place side price qty b)) (ap (λ o. o.trades) out),
      done,
      back ∙ sym e ∙ same,
      once,
    )
