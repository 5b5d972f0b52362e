-- ===== src/Strategy/Delivery.antt =====
-- What the fills of a placement do to the positions of all strategies.
use low_latency_hft_matching.Base.{
  ℕ, ◌+◌, ◌^◌, ◌<◌, ◌≡◌, refl, ap, sym, ◌∙◌, pos, ◌+ℤ◌, int_laws, List, [], ◌∷◌, Bool, true, false,
  Option, none, some, ◌==◌, if◌then◌else◌, Bool-cases, inl, inr, ==_iff,
}
use low_latency_hft_matching.Book.{opposite}
use low_latency_hft_matching.Book.Types.{Side, Price, Quantity, Trade}
use low_latency_hft_matching.Book.Valid.{IsValid, outcome}
use low_latency_hft_matching.Engine.{place_limit-last_trades}
use low_latency_hft_matching.Portfolio.{signed}
use low_latency_hft_matching.Portfolio.Equity.{on_fill-position}
use low_latency_hft_matching.Strategy.{
  Account, Desk, update, credit, credit_to, credit_maker, deliver, submitted, place_limit,
}

abbrev pub position_of : ℕ → (ℕ → Account) → Quantity
position_of k accounts = (accounts k).portfolio.position

-- What one strategy gains from a trade on one side of it, if that side is its own.
abbrev pub gain : Bool → Side → Trade → Quantity
gain mine side t = if mine then signed side t.qty else pos 0

abbrev pub owns : ℕ → Option ℕ → Bool
owns k none = false
owns k (some j) = k == j

-- The net quantity that the strategy `k` gains from the trades: as the taker, and as the maker.
abbrev pub flow : ℕ → (ℕ → Option ℕ) → ℕ → Side → List Trade → Quantity
flow k routing owner side [] = pos 0
flow k routing owner side (t ∷ trs) =
    gain (k == owner) side t
    +ℤ gain (owns k (routing t.maker_id)) (opposite side) t
    +ℤ flow k routing owner side trs

pub update_hit {ℓ} :
    {A : Type ℓ} (j : ℕ) (v : A) (f : ℕ → A) (k : ℕ) → (k == j) ≡ true → update j v f k ≡ v
unfolding update
update_hit j v f k e = rw e refl

pub update_miss {ℓ} :
    {A : Type ℓ} (j : ℕ) (v : A) (f : ℕ → A) (k : ℕ) → (k == j) ≡ false → update j v f k ≡ f k
unfolding update
update_miss j v f k e = rw e refl

abbrev position : Account → Quantity
position a = a.portfolio.position

position-credit_to :
    (k j : ℕ) (side : Side) (t : Trade) (accounts : ℕ → Account)
    → position_of k (credit_to j side t accounts) ≡ position_of k accounts +ℤ gain (k == j) side t
unfolding credit_to credit
position-credit_to k j side t accounts = elim (Bool-cases (k == j)) [
  | inl mine ↦
      let e : k ≡ j = (==_iff k j).0 mine in
      rw mine (
        ap position (update_hit j (credit side t (accounts j)) accounts k mine)
        ∙ (on_fill-position side t.price t.qty (accounts j).portfolio).0
        ∙ ap (λ i. (accounts i).portfolio.position +ℤ signed side t.qty) (sym e))
  | inr other ↦
      rw other
        (ap position (update_miss j (credit side t (accounts j)) accounts k other) ∙ omega int_laws)
]

pub position-credit_maker :
    (k : ℕ) (o : Option ℕ) (side : Side) (t : Trade) (accounts : ℕ → Account)
    → position_of k (credit_maker o side t accounts)
      ≡ position_of k accounts +ℤ gain (owns k o) side t
unfolding credit_maker
position-credit_maker k none side t accounts = omega int_laws
position-credit_maker k (some j) side t accounts = position-credit_to k j side t accounts

position-deliver :
    (k : ℕ) (routing : ℕ → Option ℕ) (owner : ℕ) (side : Side) (trs : List Trade)
    (accounts : ℕ → Account)
    → position_of k (deliver routing owner side trs accounts)
      ≡ position_of k accounts +ℤ flow k routing owner side trs
unfolding deliver
position-deliver k routing owner side [] accounts = omega int_laws
position-deliver k routing owner side (t ∷ trs) accounts =
    position-deliver k routing owner side trs _
    ∙ ap (λ t. t +ℤ flow k routing owner side trs)
        (position-credit_maker k (routing t.maker_id) (opposite side) t
            (credit_to owner side t accounts)
          ∙ ap (λ x. x +ℤ gain (owns k (routing t.maker_id)) (opposite side) t)
              (position-credit_to k owner side t accounts))
    ∙ omega int_laws

position-submitted :
    (k owner : ℕ) (accounts : ℕ → Account)
    → position_of k (update owner (submitted (accounts owner)) accounts) ≡ position_of k accounts
unfolding submitted
position-submitted k owner accounts = elim (Bool-cases (k == owner)) [
  | inl mine ↦
      ap position (update_hit owner (submitted (accounts owner)) accounts k mine)
      ∙ ap (λ i. position (accounts i)) (sym ((==_iff k owner).0 mine))
  | inr other ↦ ap position (update_miss owner (submitted (accounts owner)) accounts k other)
]

-- On a valid book a placement through a context ends. It changes the position of every strategy by
-- exactly its part in the trades that price-time priority asks for: as the taker on the side of the
-- order, as the maker of an order that the routing table gives it on the other side.
pub place_limit-positions :
    (owner : ℕ) (side : Side) (price : Price) (qty : Quantity) (d : Desk) (k : ℕ)
    → d.engine.book.next_id + 1 < 2 ^ 64
    → IsValid d.engine.book
    → (d' : Desk) × (place_limit owner side price qty d ≡ some (d.engine.book.next_id, d'))
      × (position_of k d'.accounts
          ≡ position_of k d.accounts
            +ℤ flow k d'.routing owner side (outcome side price qty d.engine.book).trades)
unfolding place_limit
place_limit-positions owner side price qty d k h v =
    let (e', eq, last, _, _) = place_limit-last_trades side price qty d.engine h v in
    let routing = update d.engine.book.next_id (some owner) d.routing in
    let accounts = update owner (submitted (d.accounts owner)) d.accounts in
    let d' : Desk = record {
      engine = e';
      routing = routing;
      accounts = deliver routing owner side e'.last_trades accounts;
    } in
    (
      d',
      rw eq refl,
      position-deliver k routing owner side e'.last_trades accounts
          ∙ ap (λ t. t +ℤ flow k routing owner side e'.last_trades)
              (position-submitted k owner d.accounts)
          ∙ ap (λ ts. position_of k d.accounts +ℤ flow k routing owner side ts) last,
    )
