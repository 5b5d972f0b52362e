-- ===== src/Book/Unlinking.antt =====
-- Cancelling keeps the order of a side.
use low_latency_hft_matching.Base.{
  ℕ, ◌≡◌, eqb_ℤ, if◌then◌else◌, [], ◌∷◌, false, some, is_empty, arith, Bool-cases, inl, inr,
  eqb_ℤ→eq, subst, sym,
}
use low_latency_hft_matching.Book.Types.{Side, Level, BookSide, Price}
use low_latency_hft_matching.Book.Levels.{find, erase_level, set_level, level_unlink}
use low_latency_hft_matching.Book.Sides.{AllGood, Ahead, IsSide, Ahead-trans}

level_unlink-AllGood :
    (s : Side) (px : Price) (id : ℕ) (lvl : Level)
    → AllGood s px lvl
    → AllGood s px (level_unlink lvl id)
unfolding level_unlink
level_unlink-AllGood s px id [] g = tt
level_unlink-AllGood s px id (n ∷ ns) g = ground (arith, level_unlink-AllGood s px id ns g.3)

erase_level-Ahead :
    (s : Side) (p px : Price) (b : BookSide)
    → IsSide s b
    → Ahead s p b
    → Ahead s p (erase_level px b)
unfolding erase_level
erase_level-Ahead s p px [] w a = tt
erase_level-Ahead s p px ((q, lvl) ∷ b) w a = ground (arith, Ahead-trans s p q b a w.2)

erase_level-IsSide :
    (s : Side) (px : Price) (b : BookSide) → IsSide s b → IsSide s (erase_level px b)
unfolding erase_level
erase_level-IsSide s px [] w = tt
erase_level-IsSide s px ((q, lvl) ∷ b) w = elim (Bool-cases (eqb_ℤ q px)) [
  | inl same ↦ rw same w.3
  | inr other ↦
      rw other (w.0, w.1, erase_level-Ahead s q px b w.3 w.2, erase_level-IsSide s px b w.3)
]

set_level-Ahead :
    (s : Side) (p px : Price) (lvl : Level) (b : BookSide)
    → Ahead s p b
    → Ahead s p (set_level px lvl b)
unfolding set_level
set_level-Ahead s p px lvl [] a = tt
set_level-Ahead s p px lvl ((q, old) ∷ b) a = ground arith

set_level-IsSide :
    (s : Side) (px : Price) (lvl : Level) (b : BookSide)
    → is_empty lvl ≡ false
    → AllGood s px lvl
    → IsSide s b
    → IsSide s (set_level px lvl b)
unfolding set_level
set_level-IsSide s px lvl [] e g w = tt
set_level-IsSide s px lvl ((q, old) ∷ b) e g w = elim (Bool-cases (eqb_ℤ q px)) [
  | inl same ↦ rw same (e, subst (λ p. AllGood s p lvl) (sym (eqb_ℤ→eq q px same)) g, w.2, w.3)
  | inr other ↦
      rw other (w.0, w.1, set_level-Ahead s q px lvl b w.2, set_level-IsSide s px lvl b e g w.3)
]

find-AllGood :
    (s : Side) (px : Price) (lvl : Level) (b : BookSide)
    → find px b ≡ some lvl
    → IsSide s b
    → AllGood s px lvl
unfolding find
find-AllGood s px lvl [] h w = cc
find-AllGood s px lvl ((q, l) ∷ b) h w = elim (Bool-cases (eqb_ℤ q px)) [
  | inl same ↦
      let e : some l ≡ some lvl = rw same at h in
      let e' : l ≡ lvl = cc in
      subst (AllGood s px) e' (subst (λ p. AllGood s p l) (eqb_ℤ→eq q px same) w.1)
  | inr other ↦ find-AllGood s px lvl b (rw other at h) w.3
]

-- What `cancel_at` does with the level that it finds.
abbrev pub unlinked : Price → ℕ → Level → BookSide → BookSide
unlinked px id lvl b =
    if is_empty (level_unlink lvl id)
    then erase_level px b
    else set_level px (level_unlink lvl id) b

pub unlinked-IsSide :
    (s : Side) (px : Price) (id : ℕ) (lvl : Level) (b : BookSide)
    → find px b ≡ some lvl
    → IsSide s b
    → IsSide s (unlinked px id lvl b)
unlinked-IsSide s px id lvl b h w = ground (
  arith,
  erase_level-IsSide s px b w,
  set_level-IsSide s px (level_unlink lvl id) b,
  level_unlink-AllGood s px id lvl (find-AllGood s px lvl b h w),
)

pub unlinked-Ahead :
    (s : Side) (p px : Price) (id : ℕ) (lvl : Level) (b : BookSide)
    → IsSide s b
    → Ahead s p b
    → Ahead s p (unlinked px id lvl b)
unlinked-Ahead s p px id lvl b w a =
    ground (arith, erase_level-Ahead s p px b w a, set_level-Ahead s p px (level_unlink lvl id) b a)
