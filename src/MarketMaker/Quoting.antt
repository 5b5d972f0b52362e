-- ===== src/MarketMaker/Quoting.antt =====
-- The market maker of mvp/strategies/mm.cpp leaves no quote behind when it cancels.
use low_latency_hft_matching.Base.{
  ℕ, ◌≡◌, refl, ap, sym, subst, List, [], ◌∷◌, false, none, ◌==◌, Bool-cases, inl, inr, arith,
}
use low_latency_hft_matching.Book.Types.{OrderNode}
use low_latency_hft_matching.Book.Levels.{level_unlink}
use low_latency_hft_matching.Book.Tracks.{locate}
use low_latency_hft_matching.Book.Valid.{IsValid, resting}
use low_latency_hft_matching.Book.Cancelling.{cancel_lem}
use low_latency_hft_matching.Book
use low_latency_hft_matching.Book.{OrderBook}
use low_latency_hft_matching.Engine
use low_latency_hft_matching.Strategy.{Desk, update}
use low_latency_hft_matching.Strategy
use low_latency_hft_matching.MarketMaker.{MarketMaker, cancel_quote, cancel_quotes}

locate_cons :
    (j : ℕ) (n : OrderNode) (ns : List OrderNode)
    → locate j (n ∷ ns) ≡ none
    → ((n.id == j) ≡ false) × (locate j ns ≡ none)
locate_cons j n ns h = ground (arith, h)

-- Unlinking an order does not bring another one in.
locate-level_unlink :
    (j id : ℕ) (ns : List OrderNode) → locate j ns ≡ none → locate j (level_unlink ns id) ≡ none
unfolding level_unlink
locate-level_unlink j id [] h = h
locate-level_unlink j id (n ∷ ns) h =
    let (other, rest) = locate_cons j n ns h in
    elim (Bool-cases (n.id == id)) [
      | inl hit ↦ rw hit rest
      | inr miss ↦ rw (miss, other) (locate-level_unlink j id ns rest)
    ]

book-cancel :
    (owner id : ℕ) (d : Desk)
    → (Strategy.cancel owner id d).1.engine.book ≡ (Book.cancel id d.engine.book).1
unfolding Strategy.cancel Engine.cancel
book-cancel owner id d = elim (Bool-cases (Book.cancel id d.engine.book).0) [
  | inl yes_there ↦ rw yes_there refl
  | inr not_there ↦ rw not_there refl
]

-- A book after a cancel of `id`: valid, without it, and without what was not there before.
abbrev IsCancelled : ℕ → OrderBook → OrderBook → Type 0
IsCancelled id b b' =
    IsValid b'
    × (locate id (resting b') ≡ none)
    × ((j : ℕ) → locate j (resting b) ≡ none → locate j (resting b') ≡ none)

cancel-IsCancelled : (id : ℕ) (b : OrderBook) → IsValid b → IsCancelled id b (Book.cancel id b).1
cancel-IsCancelled id b v = elim (cancel_lem id b v) [
  | inl (gone, e) ↦ subst (IsCancelled id b) (sym (ap (λ r. r.1) e)) (v, gone, λ j h. h)
  | inr (_, _, unlinked, v', gone) ↦
      (v', gone, λ j h. rw unlinked (locate-level_unlink j id (resting b) h))
]

cancel_quote-IsCancelled :
    (owner id : ℕ) (d : Desk)
    → (id == 0) ≡ false
    → IsValid d.engine.book
    → IsCancelled id d.engine.book (cancel_quote owner id d).engine.book
unfolding cancel_quote
cancel_quote-IsCancelled owner id d some_id v = rw some_id (
    subst (IsCancelled id d.engine.book) (sym (book-cancel owner id d))
      (cancel-IsCancelled id d.engine.book v))

-- On a valid book, where the market maker has a bid and an ask, `cancel_quotes` leaves a valid book
-- in which neither of them rests, and forgets both.
pub cancel_quotes-resting :
    (owner : ℕ) (m : MarketMaker) (d : Desk)
    → (m.bid_id == 0) ≡ false
    → (m.ask_id == 0) ≡ false
    → IsValid d.engine.book
    → let r = cancel_quotes owner (m, d) in
      (r.0.bid_id ≡ 0)
      × (r.0.ask_id ≡ 0)
      × IsValid r.1.engine.book
      × (locate m.bid_id (resting r.1.engine.book) ≡ none)
      × (locate m.ask_id (resting r.1.engine.book) ≡ none)
unfolding cancel_quotes
cancel_quotes-resting owner m d bid ask v =
    let (v', no_bid, _) = cancel_quote-IsCancelled owner m.bid_id d bid v in
    let (v'', no_ask, keeps) =
      cancel_quote-IsCancelled owner m.ask_id (cancel_quote owner m.bid_id d) ask v' in
    (refl, refl, v'', keeps m.bid_id no_bid, no_ask)
