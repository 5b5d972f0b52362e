-- ===== src/Book/Locating.antt =====
-- An order that the index holds is found on its side, at its price.
use low_latency_hft_matching.Base.{
  ℕ, ◌≡◌, refl, ap, ap₂, ◌∙◌, sym, if◌then◌else◌, List, [], ◌∷◌, ◌++◌, false, none, some, arith,
  ◌==◌, ==_iff, append_assoc, Bool-cases, inl, inr, eqb_ℤ, eqb_ℤ_self, is_empty, ◌⊎◌,
}
use low_latency_hft_matching.Book.Types.{Side, buy, sell, OrderNode, BookSide, Price, Level, Ref}
use low_latency_hft_matching.Book.Levels.{find, erase_level, set_level, level_unlink}
use low_latency_hft_matching.Book.Sweep.{flat}
use low_latency_hft_matching.Book.Sides.{IsSide, Ahead, AllGood, Ahead-trans}
use low_latency_hft_matching.Book.Unlinking.{unlinked}
use low_latency_hft_matching.Book.Tracks.{locate}

-- An order with this id is in the list, with something before and something behind it.
abbrev pub Split : ℕ → List OrderNode → List OrderNode → Type 0
Split id old new =
    (xs : List OrderNode) × (n : OrderNode) × (ys : List OrderNode) × (n.id ≡ id)
    × (old ≡ xs ++ n ∷ ys)
    × (new ≡ xs ++ ys)

pub locate-append :
    (id : ℕ) (xs ys : List OrderNode)
    → ((r : Ref) × (locate id xs ≡ some r) × (locate id (xs ++ ys) ≡ some r))
      ⊎ ((locate id xs ≡ none) × (locate id (xs ++ ys) ≡ locate id ys))
locate-append id [] ys = inr (refl, refl)
locate-append id (x ∷ xs) ys = elim (Bool-cases (x.id == id)) [
  | inl hit ↦ inl ((x.side, x.price), rw hit, rw hit)
  | inr miss ↦ rw miss (locate-append id xs ys)
]

level_unlink-Split :
    (id : ℕ) (lvl : Level) (r : Ref) → locate id lvl ≡ some r → Split id lvl (level_unlink lvl id)
unfolding level_unlink
level_unlink-Split id [] r h = cc
level_unlink-Split id (x ∷ xs) r h = elim (Bool-cases (x.id == id)) [
  | inl hit ↦ ([], x, xs, (==_iff _ _).0 hit, refl, rw hit)
  | inr miss ↦
      let (front, n, back, i, e, e') = level_unlink-Split id xs r (rw miss at h) in
      (x ∷ front, n, back, i, ap (◌∷◌ x) e, rw (miss, e'))
]

-- A key behind another is a different key.
pub find-before :
    (s : Side) (q px : Price) (lvl : Level) (b : BookSide)
    → IsSide s b
    → Ahead s q b
    → find px b ≡ some lvl
    → eqb_ℤ q px ≡ false
unfolding find
find-before s q px lvl [] w a h = cc
find-before buy q px lvl ((p, l) ∷ b) w a h =
    ground (arith, find-before buy q px lvl b w.3 (Ahead-trans buy q p b a w.2))
find-before sell q px lvl ((p, l) ∷ b) w a h =
    ground (arith, find-before sell q px lvl b w.3 (Ahead-trans sell q p b a w.2))

locate-AllGood :
    (s : Side) (px : Price) (id : ℕ) (lvl : Level) (r : Ref)
    → AllGood s px lvl
    → locate id lvl ≡ some r
    → r ≡ (s, px)
locate-AllGood s px id [] r g h = cc
locate-AllGood s px id (n ∷ ns) r g h = elim (Bool-cases (n.id == id)) [
  | inl hit ↦
      let e : some (n.side, n.price) ≡ some r = rw hit at h in
      let e' : (n.side, n.price) ≡ r = cc in sym e' ∙ ap₂ (λ x y. (x, y)) g.0 g.1
  | inr miss ↦ locate-AllGood s px id ns r g.3 (rw miss at h)
]

pub Split-append_left :
    (id : ℕ) (zs old new : List OrderNode) → Split id old new → Split id (zs ++ old) (zs ++ new)
Split-append_left id zs old new (xs, n, ys, i, e, e') =
    (zs ++ xs, n, ys, i, rw (e, append_assoc), rw (e', append_assoc))

pub Split-append_right :
    (id : ℕ) (zs old new : List OrderNode) → Split id old new → Split id (old ++ zs) (new ++ zs)
Split-append_right id zs old new (xs, n, ys, i, e, e') =
    (xs, n, ys ++ zs, i, rw (e, append_assoc), rw (e', append_assoc))

flat-unlinked_head :
    (q : Price) (id : ℕ) (lvl : Level) (b : BookSide)
    → flat (unlinked q id lvl ((q, lvl) ∷ b)) ≡ level_unlink lvl id ++ flat b
unfolding flat erase_level set_level
flat-unlinked_head q id lvl b = rw (eqb_ℤ_self q) (flat_cases (level_unlink lvl id) refl)
  where
    flat_cases :
        (l : Level)
        → level_unlink lvl id ≡ l
        → flat (if is_empty (level_unlink lvl id) then b else (q, level_unlink lvl id) ∷ b)
          ≡ level_unlink lvl id ++ flat b
    flat_cases [] e = rw e
    flat_cases (x ∷ xs) e = rw e

flat-unlinked_tail :
    (q px : Price) (id : ℕ) (l lvl : Level) (b : BookSide)
    → eqb_ℤ q px ≡ false
    → flat (unlinked px id l ((q, lvl) ∷ b)) ≡ lvl ++ flat (unlinked px id l b)
unfolding flat erase_level set_level
flat-unlinked_tail q px id l lvl b h = elim (Bool-cases (is_empty (level_unlink l id))) [
  | inl e ↦ rw (h, e)
  | inr e ↦ rw (h, e)
]

find_tail :
    (q px : Price) (lvl l : Level) (b : BookSide)
    → eqb_ℤ q px ≡ false
    → find px b ≡ some l
    → find px ((q, lvl) ∷ b) ≡ some l
unfolding find
find_tail q px lvl l b h e = rw h e

-- An order of the side is found at its price, and unlinking it there takes it out of the queue.
pub find-locate :
    (s : Side) (id : ℕ) (r : Ref) (b : BookSide)
    → IsSide s b
    → locate id (flat b) ≡ some r
    → (lvl : Level) × (r.0 ≡ s)
      × (find r.1 b ≡ some lvl)
      × Split id (flat b) (flat (unlinked r.1 id lvl b))
unfolding flat
find-locate s id r [] w h = cc
find-locate s id r ((q, lvl) ∷ b) w h = elim (locate-append id lvl (flat b)) [
  | inl (r', e, e') ↦
      let same : some r' ≡ some r = sym e' ∙ h in
      let at : r ≡ (s, q) = let k : r' ≡ r = cc in sym k ∙ locate-AllGood s q id lvl r' w.1 e in
      rw at (
        lvl,
        refl,
        unfold find in rw (eqb_ℤ_self q),
        rw (flat-unlinked_head q id lvl b)
            (Split-append_right id (flat b) lvl _ (level_unlink-Split id lvl r' e)),
      )
  | inr (e, e') ↦
      let (l, side, found, split) = find-locate s id r b w.3 (sym e' ∙ h) in
      let other = find-before s q r.1 l b w.3 w.2 found in
      (
        l,
        side,
        find_tail q r.1 lvl l b other found,
        rw (flat-unlinked_tail q r.1 id l lvl b other) (Split-append_left id lvl _ _ split),
      )
]
