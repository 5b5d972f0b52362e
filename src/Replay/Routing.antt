-- ===== src/Replay/Routing.antt =====
-- What the routing of mvp/src/backtest/replay.cpp credits, and what it forgets.
use low_latency_hft_matching.Base.{
  ℕ, ◌≡◌, refl, ap, ◌∙◌, pos, ◌+ℤ◌, int_laws, List, [], ◌∷◌, Bool, true, false, Option, none, ◌==◌,
  ◌||◌, Bool-cases, inl, inr, arith,
}
use low_latency_hft_matching.Book.{opposite}
use low_latency_hft_matching.Book.Types.{Side, Quantity, Trade}
use low_latency_hft_matching.Strategy.{Desk, update}
use low_latency_hft_matching.Strategy.Delivery.{
  position_of, gain, owns, position-credit_maker, update_hit, update_miss,
}
use low_latency_hft_matching.Replay.{route_trade, route}

abbrev pub is_maker : ℕ → List Trade → Bool
is_maker id [] = false
is_maker id (t ∷ ts) = (id == t.maker_id) || is_maker id ts

abbrev pub HasDistinctMakers : List Trade → Type 0
HasDistinctMakers [] = Unit {0}
HasDistinctMakers (t ∷ ts) = (is_maker t.maker_id ts ≡ false) × HasDistinctMakers ts

-- The net quantity that strategy `k` gains as a maker by a routing table.
abbrev pub maker_flow : ℕ → (ℕ → Option ℕ) → Side → List Trade → Quantity
maker_flow k routing side [] = pos 0
maker_flow k routing side (t ∷ ts) =
    gain (owns k (routing t.maker_id)) (opposite side) t +ℤ maker_flow k routing side ts

-- Erasing the routing of an order that makes none of the trades changes nothing for them.
maker_flow-update :
    (k id : ℕ) (routing : ℕ → Option ℕ) (side : Side) (ts : List Trade)
    → is_maker id ts ≡ false
    → maker_flow k (update id none routing) side ts ≡ maker_flow k routing side ts
maker_flow-update k id routing side [] h = refl
maker_flow-update k id routing side (t ∷ ts) h =
    let other : (t.maker_id == id) ≡ false = ground (arith, h) in
    let rest : is_maker id ts ≡ false = ground (arith, h) in
    rw (update_miss id none routing t.maker_id other, maker_flow-update k id routing side ts rest)
      refl

-- The trades of one exogenous order, whose makers are distinct, are credited in full: every strategy
-- gains what its routed orders have traded, on the side opposite to the order.
pub route-positions :
    (k : ℕ) (side : Side) (ts : List Trade) (d : Desk)
    → HasDistinctMakers ts
    → position_of k (route side ts d).accounts
      ≡ position_of k d.accounts +ℤ maker_flow k d.routing side ts
unfolding route route_trade
route-positions k side [] d h = omega int_laws
route-positions k side (t ∷ ts) d h =
    route-positions k side ts (route_trade side t d) h.1
    ∙ ap (λ x. x +ℤ maker_flow k (update t.maker_id none d.routing) side ts)
        (position-credit_maker k (d.routing t.maker_id) (opposite side) t d.accounts)
    ∙ ap
        (λ x.
          position_of k d.accounts +ℤ gain (owns k (d.routing t.maker_id)) (opposite side) t +ℤ x)
        (maker_flow-update k t.maker_id d.routing side ts h.0)
    ∙ omega int_laws

route_keeps_none :
    (id : ℕ) (side : Side) (ts : List Trade) (d : Desk)
    → d.routing id ≡ none
    → (route side ts d).routing id ≡ none
unfolding route route_trade
route_keeps_none id side [] d h = h
route_keeps_none id side (t ∷ ts) d h =
    route_keeps_none id side ts (route_trade side t d) (elim (Bool-cases (id == t.maker_id)) [
      | inl hit ↦ update_hit t.maker_id none d.routing id hit
      | inr miss ↦ update_miss t.maker_id none d.routing id miss ∙ h
    ])

-- Every order that has made a trade of an exogenous order has lost its routing afterwards, also when
-- only a part of it was filled and the rest is still in the book.
pub route_forgets :
    (id : ℕ) (side : Side) (ts : List Trade) (d : Desk)
    → is_maker id ts ≡ true
    → (route side ts d).routing id ≡ none
unfolding route route_trade
route_forgets id side [] d h = cc
route_forgets id side (t ∷ ts) d h = elim (Bool-cases (id == t.maker_id)) [
  | inl hit ↦
      route_keeps_none id side ts (route_trade side t d)
        (update_hit t.maker_id none d.routing id hit)
  | inr miss ↦ route_forgets id side ts (route_trade side t d) (ground (arith, h, miss))
]
