-- ===== src/Book/Cancelling.antt =====
-- `cancel`: it removes exactly the order named, and its `return false` on a missing level is dead code.
use low_latency_hft_matching.Base.{
  List, ◌∷◌, ◌++◌, ℕ, ◌≡◌, ap, ◌∙◌, sym, [], true, false, none, some, arith, Option-cases, inl, inr,
  ◌⊎◌,
}
use low_latency_hft_matching.Book.{OrderBook, side_of, set_side, cancel_at, cancel}
use low_latency_hft_matching.Book.Types.{
  OrderNode, buy, sell, BookSide, Price, Level, Ref, Index, PoolCount, erase, release,
}
use low_latency_hft_matching.Book.Levels.{find, level_unlink}
use low_latency_hft_matching.Book.Sweep.{flat}
use low_latency_hft_matching.Book.Sides.{IsSide, Apart}
use low_latency_hft_matching.Book.Unlinking.{unlinked, unlinked-IsSide, unlinked-Ahead}
use low_latency_hft_matching.Book.Tracks.{locate_head, IsDistinct, locate, Tracks, Tracks-remove}
use low_latency_hft_matching.Book.Valid.{resting, IsValid, AskApart, Apart-ask, ask-Apart}
use low_latency_hft_matching.Book.Locating.{
  Split, locate-append, Split-append_left, Split-append_right, find-locate,
}

-- The book that a successful `cancel` leaves.
abbrev pub without : ℕ → Ref → Level → OrderBook → OrderBook
without id r lvl b =
    set_side r.0 (unlinked r.1 id lvl (side_of r.0 b))
      (record b { index = erase id b.index; pool = release b.pool })

Tracks-Split :
    (id : ℕ) (m : Index) (p : PoolCount) (old new : List OrderNode)
    → Split id old new
    → Tracks m p old
    → Tracks (erase id m) (release p) new
Tracks-Split id m p old new (xs, n, ys, i, e, e') t =
    rw (← i, e') (Tracks-remove n xs ys (rw e at t))

erase-none : (j k : ℕ) (m : Index) → m.at j ≡ none → (erase k m).at j ≡ none
unfolding erase
erase-none j k m h = ground arith

unlinked-Apart :
    (px : Price) (id : ℕ) (lvl : Level) (bids asks : BookSide)
    → IsSide sell asks
    → Apart bids asks
    → Apart bids (unlinked px id lvl asks)
unlinked-Apart px id lvl [] asks w a = tt
unlinked-Apart px id lvl ((p, _) ∷ _) asks w a = unlinked-Ahead sell p px id lvl asks w a

unlinked-AskApart :
    (px : Price) (id : ℕ) (lvl : Level) (bids asks : BookSide)
    → IsSide buy bids
    → Apart bids asks
    → Apart (unlinked px id lvl bids) asks
unlinked-AskApart px id lvl bids [] w a =
    ask-Apart (unlinked px id lvl bids) [] (unfold AskApart in tt)
unlinked-AskApart px id lvl bids ((q, l) ∷ asks) w a =
    ask-Apart (unlinked px id lvl bids) ((q, l) ∷ asks)
      (unfold AskApart in unlinked-Ahead buy q px id lvl bids w (Apart-ask bids ((q, l) ∷ asks) a))

-- What there is to know of an order that the index holds.
record Found (id : ℕ) (r : Ref) (b : OrderBook) : Type 0 where
  lvl : Level
  found : find r.1 (side_of r.0 b) ≡ some lvl
  split : Split id (resting b) (resting (without id r lvl b))
  valid : IsValid (without id r lvl b)

Found-buy :
    (id : ℕ) (px : Price) (lvl : Level) (b : OrderBook)
    → IsValid b
    → find px b.bids ≡ some lvl
    → Split id (flat b.bids) (flat (unlinked px id lvl b.bids))
    → Found id (buy, px) b
Found-buy id px lvl b v h split =
    let whole = Split-append_right id (flat b.asks) (flat b.bids) _ split in
    record {
      lvl = lvl;
      found = h;
      split = whole;
      valid = record {
        bids = unlinked-IsSide buy px id lvl b.bids h v.bids;
        asks = v.asks;
        apart = unlinked-AskApart px id lvl b.bids b.asks v.bids v.apart;
        tracks = Tracks-Split id b.index b.pool _ _ whole v.tracks;
        fresh = λ j k. erase-none j id b.index (v.fresh j k);
      };
    }

Found-sell :
    (id : ℕ) (px : Price) (lvl : Level) (b : OrderBook)
    → IsValid b
    → find px b.asks ≡ some lvl
    → Split id (flat b.asks) (flat (unlinked px id lvl b.asks))
    → Found id (sell, px) b
Found-sell id px lvl b v h split =
    let whole = Split-append_left id (flat b.bids) (flat b.asks) _ split in
    record {
      lvl = lvl;
      found = h;
      split = whole;
      valid = record {
        bids = v.bids;
        asks = unlinked-IsSide sell px id lvl b.asks h v.asks;
        apart = unlinked-Apart px id lvl b.bids b.asks v.asks v.apart;
        tracks = Tracks-Split id b.index b.pool _ _ whole v.tracks;
        fresh = λ j k. erase-none j id b.index (v.fresh j k);
      };
    }

find_order : (id : ℕ) (r : Ref) (b : OrderBook) → IsValid b → b.index.at id ≡ some r → Found id r b
find_order id (s, px) b v h = elim (locate-append id (flat b.bids) (flat b.asks)) [
  | inl (r', e, e') ↦
      let k : some r' ≡ some (s, px) = sym e' ∙ sym (v.tracks.at id) ∙ h in
      let (lvl, side, found, split) = find-locate buy id (s, px) b.bids v.bids (e ∙ k) in
      rw side (Found-buy id px lvl b v found split)
  | inr (e, e') ↦
      let k : locate id (flat b.asks) ≡ some (s, px) = sym e' ∙ sym (v.tracks.at id) ∙ h in
      let (lvl, side, found, split) = find-locate sell id (s, px) b.asks v.asks k in
      rw side (Found-sell id px lvl b v found split)
]

cancel_there :
    (id : ℕ) (r : Ref) (b : OrderBook)
    → b.index.at id ≡ some r
    → (f : Found id r b) → cancel id b ≡ (true, without id r f.lvl b)
unfolding cancel cancel_at
cancel_there id r b h f = rw (h, cancel) (rw (f.found, cancel_at))

pub cancel-IsValid : (id : ℕ) (b : OrderBook) → IsValid b → IsValid (cancel id b).1
cancel-IsValid id b v = elim (Option-cases (b.index.at id)) [
  | inl e ↦ unfold cancel in rw (e, cancel) v
  | inr (r, e) ↦ let f = find_order id r b v e in rw (cancel_there id r b e f) f.valid
]

pub unlink-middle :
    (n : OrderNode) (xs ys : List OrderNode)
    → IsDistinct (xs ++ n ∷ ys)
    → level_unlink (xs ++ n ∷ ys) n.id ≡ xs ++ ys
unfolding level_unlink
unlink-middle n [] ys d = ground arith
unlink-middle n (x ∷ xs) ys d = ground (arith, unlink-middle n xs ys d.1, locate_head n xs ys)

Split-unlink :
    (id : ℕ) (old new : List OrderNode)
    → Split id old new
    → IsDistinct old
    → new ≡ level_unlink old id
Split-unlink id old new (xs, n, ys, i, e, e') d =
    rw (e, e', ← i) (sym (unlink-middle n xs ys (rw e at d)))

without-erased :
    (id : ℕ) (r : Ref) (lvl : Level) (b : OrderBook) → (without id r lvl b).index.at id ≡ none
unfolding erase
without-erased id (buy, px) lvl b = ground arith
without-erased id (sell, px) lvl b = ground arith

-- On a valid book `cancel` succeeds exactly on the id of a resting order, takes that order and no
-- other out of the queue and leaves a valid book that knows the id no more; on any other id it
-- returns false and changes nothing.
pub cancel_lem :
    (id : ℕ) (b : OrderBook)
    → IsValid b
    → ((locate id (resting b) ≡ none) × (cancel id b ≡ (false, b)))
      ⊎ (((r : Ref) × (locate id (resting b) ≡ some r))
          × ((cancel id b).0 ≡ true)
          × (resting (cancel id b).1 ≡ level_unlink (resting b) id)
          × IsValid (cancel id b).1
          × (locate id (resting (cancel id b).1) ≡ none))
cancel_lem id b v = elim (Option-cases (b.index.at id)) [
  | inl e ↦ inl (sym (v.tracks.at id) ∙ e, unfold cancel in rw (e, cancel))
  | inr (r, e) ↦
      let f = find_order id r b v e in
      inr (
        (r, sym (v.tracks.at id) ∙ e),
        ap (λ p. p.0) (cancel_there id r b e f),
        rw (cancel_there id r b e f) (Split-unlink id _ _ f.split v.tracks.distinct),
        cancel-IsValid id b v,
        rw (cancel_there id r b e f) (sym (f.valid.tracks.at id) ∙ without-erased id r f.lvl b),
      )
]
