-- ===== src/Book/Sweep.antt =====
-- `match_against` as a whole: it ends, and eats the crossing levels of the side as one queue.
use low_latency_hft_matching.Base.{
  ℕ, zero, suc, ◌+◌, ◌<◌, ◌≡◌, refl, ap, ℤ, is_pos, if◌then◌else◌, List, [], ◌∷◌, ◌++◌,
  append_assoc, append-nil, false, some, length, is_empty, arith, Bool-cases, inl, inr,
}
use low_latency_hft_matching.Book.{Matching, match_against}
use low_latency_hft_matching.Book.Types.{Side, OrderNode, BookSide, Price, Index, PoolCount}
use low_latency_hft_matching.Book.Levels.{cross}
use low_latency_hft_matching.Book.Greedy.{untouched, fill}
use low_latency_hft_matching.Book.Matches.{
  erase_all, release_all, apply, AllAt, match_level-fill, fill-append_done, fill-append_more,
}

-- Every node of the side stands at the price of its level.
abbrev pub AllPriced : BookSide → Type 0
AllPriced [] = Unit {0}
AllPriced ((px, lvl) ∷ b) = AllAt px lvl × AllPriced b

-- All orders of a side, in priority order.
unfoldable pub flat : BookSide → List OrderNode
flat [] = []
flat ((_, lvl) ∷ b) = lvl ++ flat b

-- The orders of the leading levels that cross, in priority order.
unfoldable pub eligible : Side → Price → BookSide → List OrderNode
eligible opp limit [] = []
eligible opp limit ((px, lvl) ∷ b) = if cross opp px limit then lvl ++ eligible opp limit b else []

-- The levels behind them.
unfoldable pub beyond : Side → Price → BookSide → BookSide
beyond opp limit [] = []
beyond opp limit ((px, lvl) ∷ b) = if cross opp px limit then beyond opp limit b else (px, lvl) ∷ b

-- The side when a taker of quantity `q` has gone through it.
unfoldable pub swept : Side → ℕ → Price → ℤ → BookSide → BookSide
swept opp taker limit q [] = []
swept opp taker limit q ((px, lvl) ∷ b) =
    let o = fill taker q lvl in
    let rest = swept opp taker limit o.left b in
    if is_pos q
    then (if cross opp px limit
        then (if is_empty o.queue then rest else (px, o.queue) ∷ b)
        else (px, lvl) ∷ b)
    else (px, lvl) ∷ b

erase_all-append :
    (ks js : List ℕ) (m : Index) → erase_all (ks ++ js) m ≡ erase_all js (erase_all ks m)
erase_all-append [] js m = refl
erase_all-append (k ∷ ks) js m = erase_all-append ks js _

release_all-append :
    (ks js : List ℕ) (p : PoolCount) → release_all (ks ++ js) p ≡ release_all js (release_all ks p)
release_all-append [] js p = refl
release_all-append (k ∷ ks) js p = release_all-append ks js _

pub fill_stop :
    (taker : ℕ) (q : ℤ) (xs : List OrderNode) → is_pos q ≡ false → fill taker q xs ≡ untouched q xs
unfolding fill
fill_stop taker q [] h = refl
fill_stop taker q (o ∷ os) h = rw h

match_against_stop :
    (fuel : ℕ) (opp : Side) (taker : ℕ) (limit : Price) (m : Matching) (b : BookSide)
    → 0 < fuel
    → is_pos m.qty ≡ false
    → match_against fuel opp taker limit m b ≡ some (m, b)
unfolding match_against
match_against_stop zero opp taker limit m b h stop = absurd (omega arith)
match_against_stop (suc fuel) opp taker limit m [] h stop = refl
match_against_stop (suc fuel) opp taker limit m (l ∷ b) h stop = rw stop

-- On a side whose nodes stand at the prices of their levels, `match_against` ends within one round
-- more than there are levels; it fills the taker from the crossing orders in priority order, and the
-- side keeps what is left of them and all that is behind.
pub match_against-fill :
    (fuel : ℕ) (opp : Side) (taker : ℕ) (limit : Price) (m : Matching) (b : BookSide)
    → length b < fuel
    → AllPriced b
    → match_against fuel opp taker limit m b
      ≡ some (apply m (fill taker m.qty (eligible opp limit b)), swept opp taker limit m.qty b)
unfolding match_against eligible swept
match_against-fill zero opp taker limit m b h at = absurd (omega arith)
match_against-fill (suc fuel) opp taker limit m [] h at = unfold fill in rw append-nil
match_against-fill (suc fuel) opp taker limit m ((px, lvl) ∷ b) h (at, more) =
    elim (Bool-cases (is_pos m.qty)) [
      | inr stop ↦ rw (stop, fill_stop taker m.qty _ stop, append-nil)
      | inl go ↦ elim (Bool-cases (cross opp px limit)) [
        | inr behind ↦ rw (go, behind) (unfold fill in rw append-nil)
        | inl crosses ↦
            rw (go, crosses, match_level-fill (length lvl + 1) taker px m lvl (omega arith) at)
              (elim (Bool-cases (is_empty (fill taker m.qty lvl).queue)) [
                | inl done ↦
                    rw (done, fill-append_done taker m.qty lvl (eligible opp limit b) done)
                      (rw (append_assoc, ← erase_all-append, ← release_all-append) at
                        (match_against-fill fuel opp taker limit (apply m (fill taker m.qty lvl)) b
                          (omega arith) more))
                | inr kept ↦
                    let (e, stop) = fill-append_more taker m.qty lvl (eligible opp limit b) kept in
                    rw (kept, e) (match_against_stop fuel opp taker limit _ _ (omega arith) stop)
              ])
      ]
    ]

pub flat-eligible :
    (opp : Side) (limit : Price) (b : BookSide)
    → flat b ≡ eligible opp limit b ++ flat (beyond opp limit b)
unfolding flat eligible beyond
flat-eligible opp limit [] = refl
flat-eligible opp limit ((px, lvl) ∷ b) = elim (Bool-cases (cross opp px limit)) [
  | inl crosses ↦ rw (crosses, append_assoc) (ap (◌++◌ lvl) (flat-eligible opp limit b))
  | inr behind ↦ rw behind
]

-- What the sweep leaves on the side, as one queue.
pub flat-swept :
    (opp : Side) (taker : ℕ) (limit : Price) (q : ℤ) (b : BookSide)
    → flat (swept opp taker limit q b)
      ≡ (fill taker q (eligible opp limit b)).queue ++ flat (beyond opp limit b)
unfolding flat eligible beyond swept
flat-swept opp taker limit q [] = unfold fill in refl
flat-swept opp taker limit q ((px, lvl) ∷ b) = elim (Bool-cases (is_pos q)) [
  | inr stop ↦ rw (stop, fill_stop taker q _ stop) (flat-eligible opp limit ((px, lvl) ∷ b))
  | inl go ↦ elim (Bool-cases (cross opp px limit)) [
    | inr behind ↦ rw (go, behind) (unfold fill in refl)
    | inl crosses ↦ elim (Bool-cases (is_empty (fill taker q lvl).queue)) [
      | inl done ↦
          rw (go, crosses, done, fill-append_done taker q lvl (eligible opp limit b) done)
            (flat-swept opp taker limit (fill taker q lvl).left b)
      | inr kept ↦
          rw
            (
              go,
              crosses,
              kept,
              (fill-append_more taker q lvl (eligible opp limit b) kept).0,
              append_assoc,
            )
            (ap (◌++◌ (fill taker q lvl).queue) (flat-eligible opp limit b))
    ]
  ]
]
