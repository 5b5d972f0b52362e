-- ===== src/Pool/Counts.antt =====
-- The pool as the order book sees it: how many slots are taken, of how many.
use low_latency_hft_matching.Base.{
  ℕ, ◌<◌, ◌≡◌, ap, List, none, some, arith, is_some, if◌then◌else◌, inl, inr, length,
}
use low_latency_hft_matching.Book.Types.{PoolCount}
use low_latency_hft_matching.Book.Types
use low_latency_hft_matching.Pool.{ObjectPool, acquire, release}
use low_latency_hft_matching.Pool.FreeList.{FreeList, acquire-FreeList}

module _ {ℓ} {T : Type ℓ} where
  abbrev pub view : ObjectPool T → PoolCount
  view p = record { in_use = p.in_use; capacity = p.capacity }

  capacity-acquire : (p : ObjectPool T) → (acquire p).1.capacity ≡ p.capacity
  unfolding acquire
  capacity-acquire p = ground arith

  -- On a pool with a free list, `acquire` finds a slot exactly when the counts leave room for one,
  -- and moves the counts as the order book assumes.
  pub acquire_refines :
      (p : ObjectPool T) (ss : List ℕ)
      → FreeList p ss
      → Types.acquire (view p) ≡ (if is_some (acquire p).0 then some (view (acquire p).1) else none)
  unfolding Types.acquire
  acquire_refines p ss f = elim (acquire-FreeList p ss f) [
    | inl (full, e) ↦ rw e (ground arith)
    | inr (s, rest, e, _, _, got, used, _) ↦
        rw (got, used, capacity-acquire p) (ground (arith, f.count, ap length e))
  ]

  -- Where a slot is taken, `release` moves the counts as the order book assumes.
  pub release_refines :
      (p : ObjectPool T) (ss : List ℕ) (s : ℕ)
      → FreeList p ss
      → 0 < p.in_use
      → view (release s p) ≡ Types.release (view p)
  unfolding release Types.release
  release_refines p ss s f h =
      ap (λ (n : ℕ). record { in_use = n; capacity = p.capacity }) (omega (arith, f.count, f.small))
