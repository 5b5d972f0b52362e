-- ===== src/Book/Matches.antt =====
-- The loops of `match_against` end, and do what `Greedy.fill` says.
use low_latency_hft_matching.Base.{
  ℕ, zero, suc, ◌<◌, ◌≡◌, refl, sym, subst, ℤ, pos, ◌-ℤ◌, leb_ℤ, eqb_ℤ, min_ℤ, is_pos, int_laws,
  -ℤ_parts, eq_of_parts, List, [], ◌∷◌, ◌++◌, append_assoc, append-nil, true, false, some, length,
  is_empty, arith, Bool-cases, inl, inr,
}
use low_latency_hft_matching.Book.{Matching, fill_head, match_level}
use low_latency_hft_matching.Book.Types.{OrderNode, Level, Price, Index, erase, PoolCount, release}
use low_latency_hft_matching.Book.Greedy.{Outcome, trade, fill}

abbrev pub erase_all : List ℕ → Index → Index
erase_all [] m = m
erase_all (k ∷ ks) m = erase_all ks (erase k m)

abbrev pub release_all : List ℕ → PoolCount → PoolCount
release_all [] p = p
release_all (k ∷ ks) p = release_all ks (release p)

-- The loop variables after an outcome.
abbrev pub apply : Matching → Outcome → Matching
apply m o = record {
  qty = o.left;
  trades = m.trades ++ o.trades;
  index = erase_all o.done m.index;
  pool = release_all o.done m.pool;
}

-- Every node stands at the price of its level.
abbrev pub AllAt : Price → Level → Type 0
AllAt px [] = Unit {0}
AllAt px (n ∷ ns) = (n.price ≡ px) × AllAt px ns

-- One round that uses up the maker.
abbrev pub after_full : ℕ → Matching → OrderNode → Matching
after_full taker m o = record {
  qty = m.qty -ℤ o.qty;
  trades = m.trades ++ trade taker o o.qty ∷ [];
  index = erase o.id m.index;
  pool = release m.pool;
}

-- One round that uses up the taker.
abbrev pub after_part : ℕ → Matching → OrderNode → Matching
after_part taker m o = record m { qty = pos 0; trades = m.trades ++ trade taker o m.qty ∷ [] }

min_of_le : (a b : ℤ) → leb_ℤ b a ≡ true → min_ℤ a b ≡ b
unfolding min_ℤ
min_of_le a b h = eq_of_parts _ b (ground arith)

min_of_not_le : (a b : ℤ) → leb_ℤ b a ≡ false → min_ℤ a b ≡ a
unfolding min_ℤ
min_of_not_le a b h = eq_of_parts _ a (ground arith)

sub_self : (a : ℤ) → a -ℤ a ≡ pos 0
sub_self a = omega int_laws

sub-nonzero : (a b : ℤ) → leb_ℤ a b ≡ false → eqb_ℤ (a -ℤ b) (pos 0) ≡ false
sub-nonzero a b h = ground (arith, -ℤ_parts a b)

fill_head_full :
    (taker : ℕ) (m : Matching) (o : OrderNode) (os : Level)
    → leb_ℤ o.qty m.qty ≡ true
    → fill_head taker o.price m o os ≡ (after_full taker m o, os)
unfolding fill_head
fill_head_full taker m o os h = rw (min_of_le m.qty o.qty h, sub_self o.qty)

fill_head_part :
    (taker : ℕ) (m : Matching) (o : OrderNode) (os : Level)
    → leb_ℤ o.qty m.qty ≡ false
    → fill_head taker o.price m o os
      ≡ (after_part taker m o, record o { qty = o.qty -ℤ m.qty } ∷ os)
unfolding fill_head
fill_head_part taker m o os h =
    rw (min_of_not_le m.qty o.qty h, sub_self m.qty, sub-nonzero o.qty m.qty h)

match_level_stop :
    (fuel taker : ℕ) (px : Price) (m : Matching) (lvl : Level)
    → 0 < fuel
    → is_pos m.qty ≡ false
    → match_level fuel taker px m lvl ≡ some (m, lvl)
unfolding match_level
match_level_stop zero taker px m lvl h stop = absurd (omega arith)
match_level_stop (suc fuel) taker px m [] h stop = refl
match_level_stop (suc fuel) taker px m (o ∷ os) h stop = rw stop

-- On a level whose nodes stand at its price, the inner loop ends within one round more than the level
-- has nodes, and fills the taker from the level's head on.
pub match_level-fill :
    (fuel taker : ℕ) (px : Price) (m : Matching) (lvl : Level)
    → length lvl < fuel
    → AllAt px lvl
    → let o = fill taker m.qty lvl in match_level fuel taker px m lvl ≡ some (apply m o, o.queue)
unfolding match_level fill
match_level-fill zero taker px m lvl h at = absurd (omega arith)
match_level-fill (suc fuel) taker px m [] h at = rw append-nil
match_level-fill (suc fuel) taker px m (o ∷ os) h (e, at) = elim (Bool-cases (is_pos m.qty)) [
  | inr stop ↦ rw (stop, append-nil)
  | inl go ↦ elim (Bool-cases (leb_ℤ o.qty m.qty)) [
    | inl full ↦
        rw (go, full, ← e, fill_head_full taker m o os full)
          (rw append_assoc at (
            match_level-fill fuel taker o.price (after_full taker m o) os (omega arith)
              (subst (λ p. AllAt p os) (sym e) at)))
    | inr part ↦
        rw (go, part, ← e, fill_head_part taker m o os part)
          (match_level_stop fuel taker o.price (after_part taker m o) _ (omega arith) refl)
  ]
]

abbrev pub join : Outcome → Outcome → Outcome
join o r = record {
  trades = o.trades ++ r.trades;
  left = r.left;
  queue = r.queue;
  done = o.done ++ r.done;
}

-- A queue that is used up hands what is left of the taker to the queue behind it.
pub fill-append_done :
    (taker : ℕ) (q : ℤ) (xs ys : List OrderNode)
    → is_empty (fill taker q xs).queue ≡ true
    → fill taker q (xs ++ ys) ≡ join (fill taker q xs) (fill taker (fill taker q xs).left ys)
unfolding fill
fill-append_done taker q [] ys h = refl
fill-append_done taker q (o ∷ os) ys h = ground (arith, fill-append_done taker (q -ℤ o.qty) os ys)

-- A queue that is not used up stops the taker.
pub fill-append_more :
    (taker : ℕ) (q : ℤ) (xs ys : List OrderNode)
    → is_empty (fill taker q xs).queue ≡ false
    → (fill taker q (xs ++ ys) ≡ record (fill taker q xs) { queue = (fill taker q xs).queue ++ ys })
      × (is_pos (fill taker q xs).left ≡ false)
unfolding fill
fill-append_more taker q [] ys h = cc
fill-append_more taker q (o ∷ os) ys h = ground (arith, fill-append_more taker (q -ℤ o.qty) os ys)
