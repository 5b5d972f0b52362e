-- ===== src/Book/Sides.antt =====
-- The order of one side of the book: strictly sorted non-empty levels of positive orders, each at
-- its own level. Matching, resting and cancelling keep it.
use low_latency_hft_matching.Base.{
  ℕ, ◌≡◌, refl, ℤ, ◌-ℤ◌, -ℤ_parts, is_pos, IsPos, eqb_ℤ, [], ◌∷◌, ◌++◌, true, false, is_empty,
  arith, Bool-cases, inl, inr, eqb_ℤ→eq, sym, ◌∙◌,
}
use low_latency_hft_matching.Book.Types.{Side, buy, sell, OrderNode, Level, BookSide, Price}
use low_latency_hft_matching.Book.Levels.{before, cross, level_push_back, push_at}
use low_latency_hft_matching.Book.Greedy.{fill}
use low_latency_hft_matching.Book.Matches.{AllAt, fill-append_done, fill-append_more}
use low_latency_hft_matching.Book.Sweep.{AllPriced, eligible, swept, fill_stop}

abbrev pub AllGood : Side → Price → Level → Type 0
AllGood s px [] = Unit {0}
AllGood s px (n ∷ ns) = (n.side ≡ s) × (n.price ≡ px) × IsPos n.qty × AllGood s px ns

-- `px` stands before the best key of the side.
abbrev pub Ahead : Side → Price → BookSide → Type 0
Ahead s px [] = Unit {0}
Ahead s px ((q, _) ∷ b) = before s px q ≡ true

abbrev pub IsSide : Side → BookSide → Type 0
IsSide s [] = Unit {0}
IsSide s ((px, lvl) ∷ b) = (is_empty lvl ≡ false) × AllGood s px lvl × Ahead s px b × IsSide s b

pub AllGood-AllAt : (s : Side) (px : Price) (lvl : Level) → AllGood s px lvl → AllAt px lvl
AllGood-AllAt s px [] g = tt
AllGood-AllAt s px (n ∷ ns) g = (g.1, AllGood-AllAt s px ns g.3)

pub IsSide-AllPriced : (s : Side) (b : BookSide) → IsSide s b → AllPriced b
IsSide-AllPriced s [] w = tt
IsSide-AllPriced s ((px, lvl) ∷ b) w = (AllGood-AllAt s px lvl w.1, IsSide-AllPriced s b w.3)

before_trans :
    (s : Side) (p q r : Price) → before s p q ≡ true → before s q r ≡ true → before s p r ≡ true
before_trans buy p q r h k = ground arith
before_trans sell p q r h k = ground arith

pub Ahead-trans :
    (s : Side) (p q : Price) (b : BookSide) → before s p q ≡ true → Ahead s q b → Ahead s p b
Ahead-trans s p q [] h a = tt
Ahead-trans s p q ((r, _) ∷ b) h a = before_trans s p q r h a

-- Matching.

fill-AllGood :
    (s : Side) (px : Price) (taker : ℕ) (q : ℤ) (lvl : Level)
    → AllGood s px lvl
    → AllGood s px (fill taker q lvl).queue
unfolding fill
fill-AllGood s px taker q [] g = tt
fill-AllGood s px taker q (o ∷ os) g =
    ground (arith, fill-AllGood s px taker (q -ℤ o.qty) os g.3, -ℤ_parts o.qty q)

pub swept-IsSide :
    (s : Side) (taker : ℕ) (limit : Price) (q : ℤ) (b : BookSide)
    → IsSide s b
    → IsSide s (swept s taker limit q b)
unfolding swept
swept-IsSide s taker limit q [] w = tt
swept-IsSide s taker limit q ((px, lvl) ∷ b) w = ground (
  arith,
  swept-IsSide s taker limit (fill taker q lvl).left b w.3,
  fill-AllGood s px taker q lvl w.1,
)

-- A price ahead of a side stays ahead of it.
pub swept-Ahead :
    (s : Side) (p : Price) (taker : ℕ) (limit : Price) (q : ℤ) (b : BookSide)
    → IsSide s b
    → Ahead s p b
    → Ahead s p (swept s taker limit q b)
unfolding swept
swept-Ahead s p taker limit q [] w a = tt
swept-Ahead s p taker limit q ((px, lvl) ∷ b) w a =
    ground (
      arith,
      swept-Ahead s p taker limit (fill taker q lvl).left b w.3 (Ahead-trans s p px b a w.2),
    )

-- The best level does not cross the limit.
abbrev pub Shut : Side → Price → BookSide → Type 0
Shut s limit [] = Unit {0}
Shut s limit ((px, _) ∷ b) = cross s px limit ≡ false

-- A taker that is left over has met no more crossing level.
pub swept-Shut :
    (s : Side) (taker : ℕ) (limit : Price) (q : ℤ) (b : BookSide)
    → is_pos (fill taker q (eligible s limit b)).left ≡ true
    → Shut s limit (swept s taker limit q b)
unfolding swept eligible
swept-Shut s taker limit q [] h = tt
swept-Shut s taker limit q ((px, lvl) ∷ b) h =
    let front = lvl ++ eligible s limit b in
    ground (
      arith,
      fill_stop taker q front,
      fill_stop taker q [],
      fill-append_done taker q lvl (eligible s limit b),
      fill-append_more taker q lvl (eligible s limit b),
      swept-Shut s taker limit (fill taker q lvl).left b,
    )

-- Resting.

pub AllGood-push_back :
    (s : Side) (px : Price) (lvl : Level) (n : OrderNode)
    → AllGood s px lvl
    → (n.side ≡ s) × (n.price ≡ px) × IsPos n.qty
    → AllGood s px (lvl ++ n ∷ [])
AllGood-push_back s px [] n g k = (k.0, k.1, k.2, tt)
AllGood-push_back s px (m ∷ ms) n g k = (g.0, g.1, g.2, AllGood-push_back s px ms n g.3 k)

is_empty-push_back : (lvl : Level) (n : OrderNode) → is_empty (lvl ++ n ∷ []) ≡ false
is_empty-push_back [] n = refl
is_empty-push_back (m ∷ ms) n = refl

before_of_not :
    (s : Side) (p q : Price) → eqb_ℤ q p ≡ false → before s p q ≡ false → before s q p ≡ true
before_of_not buy p q h k = ground arith
before_of_not sell p q h k = ground arith

pub push_at-Ahead :
    (s : Side) (p px : Price) (n : OrderNode) (b : BookSide)
    → before s p px ≡ true
    → Ahead s p b
    → Ahead s p (push_at s px n b)
unfolding push_at
push_at-Ahead s p px n [] h a = h
push_at-Ahead s p px n ((q, lvl) ∷ b) h a = ground arith

pub push_at-IsSide :
    (s : Side) (px : Price) (n : OrderNode) (b : BookSide)
    → (n.side ≡ s) × (n.price ≡ px) × IsPos n.qty
    → IsSide s b
    → IsSide s (push_at s px n b)
unfolding push_at level_push_back
push_at-IsSide s px n [] k w = (refl, (k.0, k.1, k.2, tt), tt, tt)
push_at-IsSide s px n ((q, lvl) ∷ b) k w = elim (Bool-cases (eqb_ℤ q px)) [
  | inl same ↦ rw same (
    is_empty-push_back lvl n,
    AllGood-push_back s q lvl n w.1 (k.0, k.1 ∙ sym (eqb_ℤ→eq q px same), k.2),
    w.2,
    w.3,
  )
  | inr other ↦ elim (Bool-cases (before s px q)) [
    | inl front ↦ rw (other, front) (refl, (k.0, k.1, k.2, tt), front, w)
    | inr behind ↦
        rw (other, behind)
          (
            w.0,
            w.1,
            push_at-Ahead s q px n b (before_of_not s px q other behind) w.2,
            push_at-IsSide s px n b k w.3,
          )
  ]
]

-- No bid meets an ask: the best key of one side stands apart from the other side.
abbrev pub Apart : BookSide → BookSide → Type 0
Apart [] asks = Unit {0}
Apart ((p, _) ∷ _) asks = Ahead sell p asks
