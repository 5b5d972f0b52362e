-- ===== src/MaCross/Crossing.antt =====
-- What an order of mvp/strategies/ma_cross.cpp answers: the crossing of two means, and the target.
use low_latency_hft_matching.Base.{
  ◌⊎◌, ◌<ℤ◌, List, ltb_ℤ, negsuc, is_empty, if◌then◌else◌, ℕ, ◌≡◌, refl, ℤ, pos, ◌+ℤ◌, ◌-ℤ◌, eqb_ℤ,
  is_pos, IsPos, int_laws, true, false, length, arith, Bool-cases, inl, inr,
}
use low_latency_hft_matching.Book.Types.{Side, buy, sell, Price, Quantity}
use low_latency_hft_matching.Portfolio.{neg_ℤ, quot_ℤ}
use low_latency_hft_matching.Backtest.{Tick, BookTop}
use low_latency_hft_matching.MaCross.{MaCrossConfig, sign_of, is_trade}
use low_latency_hft_matching.MaCross.Windows.{newest, total_price}

-- The order buys up to the target or sells down to its negative, through the quote of the other side.
abbrev pub Reaches : MaCrossConfig → BookTop → Quantity → ℤ → Side × Price × Quantity → Type 0
Reaches cfg top position sign (buy, price, qty) =
    IsPos qty
    × (position +ℤ qty ≡ cfg.target_position)
    × (price ≡ top.ask_px +ℤ cfg.slippage_ticks)
    × (is_pos sign ≡ true)
Reaches cfg top position sign (sell, price, qty) =
    IsPos qty
    × (position -ℤ qty ≡ neg_ℤ cfg.target_position)
    × (price ≡ top.bid_px -ℤ cfg.slippage_ticks)
    × (is_pos sign ≡ false)

pub up_to : (target position : ℤ) → position +ℤ (target -ℤ position) ≡ target
up_to target position = omega int_laws

pub down_to : (target position : ℤ) → position -ℤ (position -ℤ target) ≡ target
down_to target position = omega int_laws

-- The mean of the prices in the window, rounded towards zero; 0 of an empty one.
abbrev pub mean : ℕ → List Price → Price
mean window ps =
    let win = newest window ps in
    if is_empty win then pos 0 else quot_ℤ (total_price win) (pos (length win))

-- The mean of the fast window is above the slow one's for a buyer, below it for a seller, and it was
-- not on this side when the sign last changed.
abbrev pub IsCrossed : MaCrossConfig → Side → ℤ → List Price → Type 0
IsCrossed cfg buy last ps = (mean cfg.slow_window ps <ℤ mean cfg.fast_window ps) × ¬ (last ≡ pos 1)
IsCrossed cfg sell last ps =
    (mean cfg.fast_window ps <ℤ mean cfg.slow_window ps) × ¬ (last ≡ negsuc 0)

abbrev pub sign_for : Side → ℤ
sign_for buy = pos 1
sign_for sell = negsuc 0

-- The price that a tick adds to the windows: a trade's own, or else the middle of the book.
abbrev pub Takes : BookTop → Tick → Price → Type 0
Takes top t p =
    ((is_trade t.event ≡ true) × (p ≡ t.price))
    ⊎ ((is_trade t.event ≡ false) × (p ≡ top.mid) × (eqb_ℤ top.mid (pos 0) ≡ false))

pub sign_of_cases :
    (f s : Price)
    → eqb_ℤ (sign_of f s) (pos 0) ≡ false
    → ((sign_of f s ≡ pos 1) × (s <ℤ f)) ⊎ ((sign_of f s ≡ negsuc 0) × (f <ℤ s))
unfolding sign_of
sign_of_cases f s = elim (Bool-cases (ltb_ℤ s f)) [
  | inl up ↦ rw up (λ h. inl (refl, ground (arith, up)))
  | inr not_up ↦ elim (Bool-cases (ltb_ℤ f s)) [
    | inl down ↦ rw (not_up, down) (λ h. inr (refl, ground (arith, down)))
    | inr same ↦ rw (not_up, same) (λ h. cc)
  ]
]
