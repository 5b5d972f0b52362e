-- ===== src/MaCross/Signals.antt =====
-- When mvp/strategies/ma_cross.cpp places an order.
use low_latency_hft_matching.MaCross.{MaCross}
