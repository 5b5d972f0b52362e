-- ===== src/Ring/Fifo.antt =====
-- The specification of the ring of mvp/src/spsc_ring.h: a FIFO queue of at most `n` elements.
use low_latency_hft_matching.Base.{
  ℕ, List, [], ◌∷◌, ◌++◌, Bool, true, false, Option, none, some, length, ◌==◌, if◌then◌else◌,
}

module _ {ℓ} {T : Type ℓ} where
  unfoldable pub push : ℕ → T → List T → Bool × List T
  push n v q = if length q == n then (false, q) else (true, q ++ v ∷ [])

  unfoldable pub pop : List T → Option T × List T
  pop [] = (none, [])
  pop (x ∷ q) = (some x, q)
