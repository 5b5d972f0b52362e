-- ===== src/Book/Resting.antt =====
-- What is left of a placed order comes to rest, and the book stays valid.
use low_latency_hft_matching.Base.{
  ℕ, ◌+◌, ◌^◌, ◌≤◌, ◌<◌, ◌≡◌, refl, is_pos, IsPos, List, [], ◌∷◌, ◌++◌, true, none, some, arith,
  ltb→lt, append_assoc, Bool-cases, Option-cases, inl, inr, eqb_ℤ,
}
use low_latency_hft_matching.Book.{OrderBook, side_of, set_side, opposite, next64, rest_order}
use low_latency_hft_matching.Book.Types.{
  Side, buy, sell, OrderNode, BookSide, Price, Quantity, Index, Ref, PoolCount, acquire, insert,
}
use low_latency_hft_matching.Book.Levels.{before, push_at, level_push_back}
use low_latency_hft_matching.Book.Matches.{erase_all}
use low_latency_hft_matching.Book.Sweep.{flat}
use low_latency_hft_matching.Book.Sides.{
  Ahead, Apart, Shut, swept-Shut, push_at-IsSide, push_at-Ahead,
}
use low_latency_hft_matching.Book.Tracks.{Tracks, Tracks-insert}
use low_latency_hft_matching.Book.Valid.{
  resting, IsValid, AskApart, Apart-ask, ask-Apart, erase_all-none, outcome, matched,
  matched-IsValid,
}

pub flat-push_at :
    (s : Side) (px : Price) (n : OrderNode) (b : BookSide)
    → (xs : List OrderNode) × (ys : List OrderNode) × (flat b ≡ xs ++ ys)
      × (flat (push_at s px n b) ≡ xs ++ n ∷ ys)
unfolding flat push_at level_push_back
flat-push_at s px n [] = ([], [], refl, refl)
flat-push_at s px n ((q, lvl) ∷ b) = elim (Bool-cases (eqb_ℤ q px)) [
  | inl same ↦ (lvl, flat b, refl, rw same (append_assoc lvl (n ∷ []) (flat b)))
  | inr other ↦ elim (Bool-cases (before s px q)) [
    | inl front ↦ ([], lvl ++ flat b, refl, rw (other, front))
    | inr behind ↦
        let (xs, ys, e, e') = flat-push_at s px n b in
        (lvl ++ xs, ys, rw (e, append_assoc), rw (other, behind, e', append_assoc))
  ]
]

-- The order that rests.
abbrev pub rested : Side → ℕ → Price → Quantity → OrderBook → OrderNode
rested side id price qty b = record {
  id = id;
  side = side;
  price = price;
  qty = qty;
  ts = b.next_ts;
}

Shut-Ahead :
    (s : Side) (price : Price) (levels : BookSide)
    → Shut (opposite s) price levels
    → Ahead (opposite s) price levels
Shut-Ahead s price [] h = tt
Shut-Ahead buy price ((q, _) ∷ _) h = ground arith
Shut-Ahead sell price ((q, _) ∷ _) h = ground arith

-- The book with a new order `n` in it.
abbrev pub joined : Side → Price → OrderNode → PoolCount → OrderBook → OrderBook
joined side price n pool b = set_side side (push_at side price n (side_of side b)) (record b {
  index = insert n.id (side, price) b.index;
  pool = pool;
  next_ts = next64 b.next_ts;
})

insert-none :
    (id next j : ℕ) (r : Ref) (m : Index)
    → id < next
    → next ≤ j
    → m.at j ≡ none
    → (insert id r m).at j ≡ none
unfolding insert
insert-none id next j r m h k e = ground arith

push_at-Apart :
    (price : Price) (n : OrderNode) (bids asks : BookSide)
    → Ahead sell price asks
    → Apart bids asks
    → Apart (push_at buy price n bids) asks
push_at-Apart price n bids [] a v = ask-Apart (push_at buy price n bids) [] (unfold AskApart in tt)
push_at-Apart price n bids ((q, l) ∷ asks) a v =
    ask-Apart (push_at buy price n bids) ((q, l) ∷ asks)
      (unfold AskApart in push_at-Ahead buy q price n bids a (Apart-ask bids ((q, l) ∷ asks) v))

push_at-AskApart :
    (price : Price) (n : OrderNode) (bids asks : BookSide)
    → Ahead buy price bids
    → Apart bids asks
    → Apart bids (push_at sell price n asks)
push_at-AskApart price n [] asks a v = tt
push_at-AskApart price n ((p, l) ∷ bids) asks a v = push_at-Ahead sell p price n asks a v

joined-Tracks :
    (side : Side) (price : Price) (qty : Quantity) (id ts : ℕ) (pool : PoolCount) (b : OrderBook)
    → Tracks b.index b.pool (resting b)
    → b.index.at id ≡ none
    → acquire b.pool ≡ some pool
    → let n : OrderNode = record { id = id; side = side; price = price; qty = qty; ts = ts } in
      let b' = joined side price n pool b in Tracks b'.index b'.pool (resting b')
joined-Tracks buy price qty id ts pool b t unknown got =
    let n : OrderNode = record { id = id; side = buy; price = price; qty = qty; ts = ts } in
    let (xs, ys, e, e') = flat-push_at buy price n b.bids in
    rw (e', append_assoc)
      (Tracks-insert n xs (ys ++ flat b.asks) pool got unknown (rw (e, append_assoc) at t))
joined-Tracks sell price qty id ts pool b t unknown got =
    let n : OrderNode = record { id = id; side = sell; price = price; qty = qty; ts = ts } in
    let (xs, ys, e, e') = flat-push_at sell price n b.asks in
    rw (e', ← append_assoc (flat b.bids) xs (n ∷ ys))
      (Tracks-insert n (flat b.bids ++ xs) ys pool got unknown
        (rw (e, ← append_assoc (flat b.bids) xs ys) at t))

joined-IsValid :
    (side : Side) (price : Price) (qty : Quantity) (id ts : ℕ) (pool : PoolCount) (b : OrderBook)
    → IsValid b
    → id < b.next_id
    → b.index.at id ≡ none
    → acquire b.pool ≡ some pool
    → IsPos qty
    → Ahead (opposite side) price (side_of (opposite side) b)
    → IsValid (
        joined side price
          (record { id = id; side = side; price = price; qty = qty; ts = ts })
          pool
          b)
joined-IsValid buy price qty id ts pool b v below unknown got h a =
    let n : OrderNode = record { id = id; side = buy; price = price; qty = qty; ts = ts } in
    record {
      bids = push_at-IsSide buy price n b.bids (refl, refl, h) v.bids;
      asks = v.asks;
      apart = push_at-Apart price n b.bids b.asks a v.apart;
      tracks = joined-Tracks buy price qty id ts pool b v.tracks unknown got;
      fresh = λ j k. insert-none id b.next_id j (buy, price) b.index below k (v.fresh j k);
    }
joined-IsValid sell price qty id ts pool b v below unknown got h a =
    let n : OrderNode = record { id = id; side = sell; price = price; qty = qty; ts = ts } in
    record {
      bids = v.bids;
      asks = push_at-IsSide sell price n b.asks (refl, refl, h) v.asks;
      apart = push_at-AskApart price n b.bids b.asks a v.apart;
      tracks = joined-Tracks sell price qty id ts pool b v.tracks unknown got;
      fresh = λ j k. insert-none id b.next_id j (sell, price) b.index below k (v.fresh j k);
    }

pub rest_order-IsValid :
    (side : Side) (id : ℕ) (price : Price) (qty : Quantity) (b : OrderBook)
    → IsValid b
    → id < b.next_id
    → b.index.at id ≡ none
    → (is_pos qty ≡ true → Shut (opposite side) price (side_of (opposite side) b))
    → IsValid (rest_order side id price qty b)
unfolding rest_order
rest_order-IsValid side id price qty b v below unknown shut = elim (Bool-cases (is_pos qty)) [
  | inr no_rest ↦ rw no_rest v
  | inl rest ↦ elim (Option-cases (acquire b.pool)) [
    | inl full ↦ rw (rest, full) v
    | inr (pool, got) ↦
        rw (rest, got)
          (joined-IsValid side price qty id b.next_ts pool b v below unknown got (ltb→lt _ _ rest)
            (Shut-Ahead side price (side_of (opposite side) b) (shut rest)))
  ]
]

pub matched-next :
    (side : Side) (price : Price) (qty : Quantity) (b : OrderBook)
    → (matched side price qty b).next_id ≡ next64 b.next_id
unfolding matched
matched-next buy price qty b = refl
matched-next sell price qty b = refl

matched-at :
    (side : Side) (price : Price) (qty : Quantity) (b : OrderBook)
    → (matched side price qty b).index ≡ erase_all (outcome side price qty b).done b.index
unfolding matched
matched-at buy price qty b = refl
matched-at sell price qty b = refl

matched-Shut :
    (side : Side) (price : Price) (qty : Quantity) (b : OrderBook)
    → is_pos (outcome side price qty b).left ≡ true
    → Shut (opposite side) price (side_of (opposite side) (matched side price qty b))
unfolding matched
matched-Shut buy price qty b h = swept-Shut sell b.next_id price qty b.asks h
matched-Shut sell price qty b h = swept-Shut buy b.next_id price qty b.bids h

-- The book that `place_limit` leaves.
abbrev pub after_place : Side → Price → Quantity → OrderBook → OrderBook
after_place side price qty b =
    rest_order side b.next_id price (outcome side price qty b).left (matched side price qty b)

pub after_place-IsValid :
    (side : Side) (price : Price) (qty : Quantity) (b : OrderBook)
    → b.next_id + 1 < 2 ^ 64
    → IsValid b
    → IsValid (after_place side price qty b)
after_place-IsValid side price qty b h v =
    rest_order-IsValid side b.next_id price (outcome side price qty b).left _
      (matched-IsValid side price qty b h v) (rw (matched-next side price qty b) (omega arith))
      (rw (matched-at side price qty b) (
        erase_all-none b.next_id (outcome side price qty b).done b.index
          (v.fresh b.next_id (omega arith))))
      (matched-Shut side price qty b)
