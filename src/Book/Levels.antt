-- ===== src/Book/Levels.antt =====
-- The two `std::map`s of mvp/src/order_book.h: keys in priority order, and the level helpers.
use low_latency_hft_matching.Base.{
  ℕ, ℤ, [], ◌∷◌, ◌++◌, Bool, Option, none, some, ltb_ℤ, leb_ℤ, eqb_ℤ, ◌==◌, if◌then◌else◌,
}
use low_latency_hft_matching.Book.Types.{Side, buy, sell, OrderNode, Level, BookSide}

-- `key_compare`: bids descending, asks ascending.
abbrev pub before : Side → ℤ → ℤ → Bool
before buy p q = ltb_ℤ q p
before sell p q = ltb_ℤ p q

-- Whether a taker with this limit trades at a level of the side.
abbrev pub cross : Side → ℤ → ℤ → Bool
cross sell level_px limit = leb_ℤ level_px limit
cross buy level_px limit = leb_ℤ limit level_px

-- `find`.
unfoldable pub find : ℤ → BookSide → Option Level
find p [] = none
find p ((q, lvl) ∷ b) = if eqb_ℤ q p then some lvl else find p b

-- `erase` of a key.
unfoldable pub erase_level : ℤ → BookSide → BookSide
erase_level p [] = []
erase_level p ((q, lvl) ∷ b) = if eqb_ℤ q p then b else (q, lvl) ∷ erase_level p b

-- A write through the iterator of a key that is there.
unfoldable pub set_level : ℤ → Level → BookSide → BookSide
set_level p l [] = []
set_level p l ((q, lvl) ∷ b) = if eqb_ℤ q p then (q, l) ∷ b else (q, lvl) ∷ set_level p l b

-- The list after `level_push_back`.
unfoldable pub level_push_back : Level → OrderNode → Level
level_push_back lvl n = lvl ++ n ∷ []

-- The list after `level_unlink` of the node with this id.
unfoldable pub level_unlink : Level → ℕ → Level
level_unlink [] id = []
level_unlink (n ∷ ns) id = if n.id == id then ns else n ∷ level_unlink ns id

-- `level_push_back(side[p], n)`: `operator[]` makes an empty level at a new key.
unfoldable pub push_at : Side → ℤ → OrderNode → BookSide → BookSide
push_at s p n [] = (p, level_push_back [] n) ∷ []
push_at s p n ((q, lvl) ∷ b) =
    if eqb_ℤ q p
    then (q, level_push_back lvl n) ∷ b
    else if before s p q
    then (p, level_push_back [] n) ∷ (q, lvl) ∷ b
    else (q, lvl) ∷ push_at s p n b
