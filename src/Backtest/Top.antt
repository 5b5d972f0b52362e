-- ===== src/Backtest/Top.antt =====
-- The mark of mvp/src/backtest/replay.cpp lies between the best bid and the best ask.
use low_latency_hft_matching.Base.{◌≡◌, ℤ, pos, ◌+ℤ◌, ◌-ℤ◌, eqb_ℤ, ◌≤ℤ◌, false, arith}
use low_latency_hft_matching.Book.Types.{Price}
use low_latency_hft_matching.Portfolio.{quot_ℤ}
use low_latency_hft_matching.Backtest.{mid_of}

half_between : (a b : ℤ) → a ≤ℤ b → (a ≤ℤ quot_ℤ (a +ℤ b) (pos 2)) × (quot_ℤ (a +ℤ b) (pos 2) ≤ℤ b)
unfolding quot_ℤ ◌+ℤ◌ ◌-ℤ◌
half_between a b h = (ground arith, ground arith)

-- Where the book shows a bid and an ask that is not below it, the mark is between the two.
pub mid_of-between :
    (bid ask last : Price)
    → eqb_ℤ bid (pos 0) ≡ false
    → eqb_ℤ ask (pos 0) ≡ false
    → bid ≤ℤ ask
    → (bid ≤ℤ mid_of bid ask last) × (mid_of bid ask last ≤ℤ ask)
unfolding mid_of
mid_of-between bid ask last b a h = rw (b, a) (half_between bid ask h)
