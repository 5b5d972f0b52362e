-- ===== src/Tests/Accounts.antt =====
-- Runs of the portfolio.
use low_latency_hft_matching.Base.{◌≡◌, refl, ℤ, pos, negsuc, ◌+ℤ◌, ◌-ℤ◌, ◌*ℤ◌, min_ℤ, ◌<ℤ◌}
use low_latency_hft_matching.Book.Types.{buy, sell}
use low_latency_hft_matching.Portfolio.{
  Portfolio, on_fill, same_direction, extend, reduce, total_pnl, abs_ℤ,
}
use low_latency_hft_matching.Portfolio.Equity.{on_fill-equity}
use low_latency_hft_matching.Portfolio.Averaging.{on_fill-average}

-- Long 10 at 100.
abbrev long : Portfolio
long = record { position = pos 10; avg_cost = pos 100; realized_pnl = pos 0; gross_volume = pos 10 }

-- Selling 15 at 110 flips it to short 5 at 110, with 100 realized.
flip : on_fill sell (pos 110) (pos 15) long ≡ record {
  position = negsuc 4;
  avg_cost = pos 110;
  realized_pnl = pos 100;
  gross_volume = pos 25;
}
unfolding on_fill same_direction reduce ◌+ℤ◌ ◌-ℤ◌ ◌*ℤ◌ min_ℤ
flip = refl

on_fill-equity_example :
    total_pnl (pos 120) (on_fill sell (pos 110) (pos 15) long)
    ≡ total_pnl (pos 120) long +ℤ (pos 120 -ℤ pos 110) *ℤ negsuc 14
unfolding same_direction ◌-ℤ◌
on_fill-equity_example = on_fill-equity (pos 120) sell (pos 110) (pos 15) long refl

-- 10 at 100 and 5 at 104 average to 101, a rounding of 5.
on_fill-average_example :
    (slip : ℤ) × (total_pnl (pos 120) (on_fill buy (pos 104) (pos 5) long) +ℤ slip
      ≡ total_pnl (pos 120) long +ℤ (pos 120 -ℤ pos 104) *ℤ pos 5)
    × (abs_ℤ slip <ℤ pos 15)
unfolding on_fill same_direction extend ◌+ℤ◌
on_fill-average_example = on_fill-average (pos 120) buy (pos 104) (pos 5) long refl
