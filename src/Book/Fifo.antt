-- ===== src/Book/Fifo.antt =====
-- Time priority: an order that rests joins the back of the queue at its price.
use low_latency_hft_matching.Base.{
  ℕ, ◌≡◌, refl, ap, ◌∙◌, sym, ◌⊎◌, ◌&&◌, is_some, eqb_ℤ, eqb_ℤ_self, eqb_ℤ→eq, is_pos, List, [],
  ◌∷◌, ◌++◌, true, false, Option, none, some, arith, Bool-cases, Option-cases, inl, inr,
  if◌then◌else◌,
}
use low_latency_hft_matching.Book.{OrderBook, place_limit, side_of, rest_order}
use low_latency_hft_matching.Book.Types.{
  Side, buy, sell, OrderNode, Trade, BookSide, Price, Quantity, Level, PoolCount, acquire,
}
use low_latency_hft_matching.Book.Levels.{before, find, push_at, level_push_back}
use low_latency_hft_matching.Book.Priority.{matched-own}
use low_latency_hft_matching.Book.Sides.{IsSide, Ahead, Ahead-trans}
use low_latency_hft_matching.Book.Locating.{find-before}
use low_latency_hft_matching.Book.Valid.{IsValid, outcome, matched, place_limit_lem, side-IsSide}
use low_latency_hft_matching.Book.Resting.{after_place, rested}

abbrev pub or_empty : Option Level → Level
or_empty none = []
or_empty (some lvl) = lvl

-- The queue at a price: empty if there is no such level.
abbrev pub level_at : Price → BookSide → Level
level_at px b = or_empty (find px b)

eqb_ℤ-eqb_ℤ : (q p r : Price) → eqb_ℤ q p ≡ true → eqb_ℤ q r ≡ eqb_ℤ p r
eqb_ℤ-eqb_ℤ q p r h = rw (eqb_ℤ→eq q p h)

eqb_ℤ_distinct : (q p r : Price) → eqb_ℤ q r ≡ true → eqb_ℤ q p ≡ false → eqb_ℤ p r ≡ false
eqb_ℤ_distinct q p r h k = ground arith

-- A price that stands ahead of a side is not on it.
find_in_front : (s : Side) (p : Price) (b : BookSide) → IsSide s b → Ahead s p b → find p b ≡ none
find_in_front s p b w a = elim (Option-cases (find p b)) [
  | inl e ↦ e
  | inr (lvl, e) ↦ let h : true ≡ false = sym (eqb_ℤ_self p) ∙ find-before s p p lvl b w a e in cc
]

pub find-push_at :
    (s : Side) (p r : Price) (n : OrderNode) (b : BookSide)
    → IsSide s b
    → find r (push_at s p n b)
      ≡ (if eqb_ℤ p r then some (level_push_back (level_at p b) n) else find r b)
unfolding find push_at
find-push_at s p r n [] w = refl
find-push_at s p r n ((q, lvl) ∷ b) w = elim (Bool-cases (eqb_ℤ q p)) [
  | inl same ↦
      rw (same, eqb_ℤ-eqb_ℤ q p r same)
        (elim (Bool-cases (eqb_ℤ p r)) [ inl e ↦ rw e | inr e ↦ rw e ])
  | inr other ↦ elim (Bool-cases (before s p q)) [
    | inl front ↦ rw (other, front, find_in_front s p b w.3 (Ahead-trans s p q b front w.2))
    | inr behind ↦
        rw (other, behind)
          (elim (Bool-cases (eqb_ℤ q r)) [
            | inl hit ↦ rw (hit, eqb_ℤ_distinct q p r hit other)
            | inr miss ↦ rw miss (find-push_at s p r n b w.3)
          ])
  ]
]

rest_order-own :
    (side : Side) (id : ℕ) (price : Price) (qty : Quantity) (pool : PoolCount) (b : OrderBook)
    → is_pos qty ≡ true
    → acquire b.pool ≡ some pool
    → side_of side (rest_order side id price qty b)
      ≡ push_at side price (rested side id price qty b) (side_of side b)
unfolding rest_order
rest_order-own buy id price qty pool b h got = rw (h, got)
rest_order-own sell id price qty pool b h got = rw (h, got)

rest_order-full :
    (side : Side) (id : ℕ) (price : Price) (qty : Quantity) (b : OrderBook)
    → is_pos qty ≡ true
    → acquire b.pool ≡ none
    → rest_order side id price qty b ≡ b
unfolding rest_order
rest_order-full side id price qty b h full = rw (h, full)

rest_order-zero :
    (side : Side) (id : ℕ) (price : Price) (qty : Quantity) (b : OrderBook)
    → is_pos qty ≡ false
    → rest_order side id price qty b ≡ b
unfolding rest_order
rest_order-zero side id price qty b h = rw h

matched-ts :
    (side : Side) (price : Price) (qty : Quantity) (b : OrderBook)
    → (matched side price qty b).next_ts ≡ b.next_ts
unfolding matched
matched-ts buy price qty b = refl
matched-ts sell price qty b = refl

level_at-push_at :
    (s : Side) (p r : Price) (n : OrderNode) (b : BookSide)
    → IsSide s b
    → level_at r (push_at s p n b) ≡ (if eqb_ℤ p r then level_at r b ++ n ∷ [] else level_at r b)
unfolding level_push_back
level_at-push_at s p r n b w = rw (find-push_at s p r n b w) (elim (Bool-cases (eqb_ℤ p r)) [
  | inl same ↦ rw (same, eqb_ℤ→eq p r same)
  | inr other ↦ rw other
])

-- On a valid book, the queues of the taker's own side after `place_limit`: if some of the order is
-- left and the pool has a slot, it joins the back of the queue at its price and no other queue
-- changes; otherwise the side stays as it was.
pub place_limit-back :
    (side : Side) (price : Price) (qty : Quantity) (trades : List Trade) (b : OrderBook)
    → IsValid b
    → let left = (outcome side price qty b).left in
      let pool = acquire (matched side price qty b).pool in
      (b' : OrderBook) × (ts : List Trade) × (place_limit side price qty trades b
        ≡ some (b.next_id, ts, b'))
      × (((is_pos left && is_some pool ≡ true)
            × ((r : Price)
                → level_at r (side_of side b') ≡ (
                    if eqb_ℤ price r
                    then level_at r (side_of side b) ++ rested side b.next_id price left b ∷ []
                    else level_at r (side_of side b))))
          ⊎ ((is_pos left && is_some pool ≡ false) × (side_of side b' ≡ side_of side b)))
place_limit-back side price qty trades b v =
    let m = matched side price qty b in
    let left = (outcome side price qty b).left in
    (
      after_place side price qty b,
      _,
      place_limit_lem side price qty trades b v,
      elim (Bool-cases (is_pos left)) [
        | inr no_rest ↦ inr (
          rw no_rest,
          ap (side_of side) (rest_order-zero side b.next_id price left m no_rest)
              ∙ matched-own side price qty b,
        )
        | inl rest ↦ elim (Option-cases (acquire m.pool)) [
          | inl full ↦ inr (
            rw (rest, full),
            ap (side_of side) (rest_order-full side b.next_id price left m rest full)
                ∙ matched-own side price qty b,
          )
          | inr (pool, got) ↦ inl (
            rw (rest, got),
            λ r.
                rw
                  (
                    rest_order-own side b.next_id price left pool m rest got,
                    matched-own side price qty b,
                    matched-ts side price qty b,
                  )
                  (level_at-push_at side price r (rested side b.next_id price left b)
                    (side_of side b) (side-IsSide side v)),
          )
        ]
      ],
    )
