-- ===== src/Book/Session.antt =====
-- Sequences of calls on one book.
use low_latency_hft_matching.Base.{
  ℕ, ◌+◌, ◌^◌, ◌<◌, ◌≡◌, refl, ◌∙◌, List, [], ◌∷◌, Option, some, length, arith, ◌>>=◌, Option-cases,
  inl, inr,
}
use low_latency_hft_matching.Book.{
  OrderBook, empty_book, place_limit, cancel, cancel_at, rest_order, set_side, side_of,
}
use low_latency_hft_matching.Book.Types.{Side, buy, sell, BookSide, Price, Quantity}
use low_latency_hft_matching.Book.Valid.{
  IsValid, outcome, matched, empty_book-IsValid, place_limit_lem,
}
use low_latency_hft_matching.Book.Resting.{after_place, matched-next, after_place-IsValid}
use low_latency_hft_matching.Book.Cancelling.{cancel-IsValid}

pub data Call : Type 0 where
  places : Side → Price → Quantity → Call
  cancels : ℕ → Call

-- `none` only if a loop of `place_limit` runs out of fuel.
unfoldable pub step : OrderBook → Call → Option OrderBook
step b (places side price qty) = do r ← place_limit side price qty [] b; some r.2
step b (cancels id) = some (cancel id b).1

unfoldable pub run : OrderBook → List Call → Option OrderBook
run b [] = some b
run b (c ∷ cs) = step b c >>= λ b'. run b' cs

next-set_side : (s : Side) (l : BookSide) (b : OrderBook) → (set_side s l b).next_id ≡ b.next_id
next-set_side buy l b = refl
next-set_side sell l b = refl

pub next-cancel : (id : ℕ) (b : OrderBook) → (cancel id b).1.next_id ≡ b.next_id
unfolding cancel
next-cancel id b = elim (Option-cases (b.index.at id)) [
  | inl e ↦ rw (e, cancel)
  | inr (r, e) ↦ elim (Option-cases (cancel_at r.1 id (side_of r.0 b))) [
    | inl none_there ↦ rw (e, cancel) (rw none_there)
    | inr (l, there) ↦ rw (e, cancel) (rw there (next-set_side r.0 l _))
  ]
]

next-rest_order :
    (side : Side) (id : ℕ) (price : Price) (qty : Quantity) (b : OrderBook)
    → (rest_order side id price qty b).next_id ≡ b.next_id
unfolding rest_order
next-rest_order buy id price qty b = ground arith
next-rest_order sell id price qty b = ground arith

pub next-after_place :
    (side : Side) (price : Price) (qty : Quantity) (b : OrderBook)
    → b.next_id + 1 < 2 ^ 64
    → (after_place side price qty b).next_id ≡ b.next_id + 1
next-after_place side price qty b h =
    next-rest_order side b.next_id price (outcome side price qty b).left (matched side price qty b)
    ∙ matched-next side price qty b
    ∙ omega arith

step-IsValid :
    (b : OrderBook) (c : Call)
    → b.next_id + 1 < 2 ^ 64
    → IsValid b
    → (b' : OrderBook) × (step b c ≡ some b') × IsValid b' × (b'.next_id < b.next_id + 2)
unfolding step
step-IsValid b (places side price qty) h v = (
  after_place side price qty b,
  rw (place_limit_lem side price qty [] b v),
  after_place-IsValid side price qty b h v,
  rw (next-after_place side price qty b h) (omega arith),
)
step-IsValid b (cancels id) h v =
    ((cancel id b).1, refl, cancel-IsValid id b v, rw (next-cancel id b) (omega arith))

run-IsValid :
    (cs : List Call) (b : OrderBook)
    → b.next_id + length cs < 2 ^ 64
    → IsValid b
    → (b' : OrderBook) × (run b cs ≡ some b') × IsValid b'
unfolding run
run-IsValid [] b h v = (b, refl, v)
run-IsValid (c ∷ cs) b h v =
    let (b', e, v', k) = step-IsValid b c (omega arith) v in
    rw e (run-IsValid cs b' (omega arith) v')

-- From an empty book every sequence of fewer than 2^64 - 1 calls runs to its end, and leaves a valid
-- book.
pub run-empty_book-IsValid :
    (capacity : ℕ) (cs : List Call)
    → 1 + length cs < 2 ^ 64
    → (b : OrderBook) × (run (empty_book capacity) cs ≡ some b) × IsValid b
run-empty_book-IsValid capacity cs h =
    run-IsValid cs (empty_book capacity) (unfold empty_book in h) (empty_book-IsValid capacity)
