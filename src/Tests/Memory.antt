-- ===== src/Tests/Memory.antt =====
-- Runs of the object pool and of the ring.
use low_latency_hft_matching.Ring.Threads.Handoff.{Run-initial}
use low_latency_hft_matching.Ring.Threads.{
  initial, is_full, is_empty_at, goes, stays, load_tail, write_slot, store_head, load_head,
  read_slot, store_tail,
}
use low_latency_hft_matching.Base.{
  ℕ, ◌+◌, ◌-◌, ◌^◌, ◌<◌, ◌≤◌, ◌≡◌, refl, List, [], ◌∷◌, Bool, true, false, Option, none, some,
  arith, ◌⊎◌,
}
use low_latency_hft_matching.Pool.{
  ObjectPool, Slot, storage, new_pool, thread, thread_slot, acquire, release, write,
}
use low_latency_hft_matching.Pool.FreeList.{FreeList, has, acquire-FreeList, release-FreeList}
use low_latency_hft_matching.Ring
use low_latency_hft_matching.Ring.{
  SpscRing, new_ring, try_push, try_pop, size_approx, round_up_pow2, bit_ceil_from,
}
use low_latency_hft_matching.Ring.Queue.{IsValid, contents, ring_refines}
use low_latency_hft_matching.Ring.Fifo

-- A slab that holds leftovers.
abbrev dirty : ℕ → Slot ℕ
dirty s = storage 77

-- Slot 0 taken.
abbrev used : ObjectPool ℕ
used = record {
  capacity = 3;
  slab = (acquire (new_pool 3 dirty)).1.slab;
  free_head = some 1;
  in_use = 1;
}

used-FreeList : FreeList used (1 ∷ 2 ∷ [])
unfolding new_pool thread thread_slot write acquire
used-FreeList = record {
  head = refl;
  linked = (refl, refl, (refl, refl, tt));
  within = (omega arith, (omega arith, tt));
  count = refl;
  small = omega arith;
}

acquire-FreeList_example :
    ((used.in_use ≡ used.capacity) × (acquire used ≡ (none, used)))
    ⊎ ((s : ℕ) × (rest : List ℕ) × (1 ∷ 2 ∷ [] ≡ s ∷ rest)
        × (has s rest ≡ false)
        × (s < 3)
        × ((acquire used).0 ≡ some s)
        × ((acquire used).1.in_use ≡ 1 + 1)
        × FreeList (acquire used).1 rest)
acquire-FreeList_example = acquire-FreeList used (1 ∷ 2 ∷ []) used-FreeList

release-FreeList_example :
    FreeList (release 0 used) (0 ∷ 1 ∷ 2 ∷ [])
    × ((release 0 used).in_use + 1 ≡ 1)
    × ((acquire (release 0 used)).0 ≡ some 0)
release-FreeList_example =
    release-FreeList used (1 ∷ 2 ∷ []) 0 refl (omega arith) (omega arith) used-FreeList

-- Four slots whose indices are about to wrap, with 8 and 9 inside.
abbrev wrapping : SpscRing ℕ
wrapping = record { log_cap = 2; head = 0; tail = 2 ^ 64 - 2; buf = λ i. i + 6 }

wrapping-IsValid : IsValid wrapping
wrapping-IsValid = record {
  log_cap = omega arith;
  head = omega arith;
  tail = omega arith;
  size = omega arith;
}

ring_refines_example :
    (◌≡◌ {A = Bool × List ℕ}
      ((try_push 5 wrapping).0, contents (try_push 5 wrapping).1)
      (true, 8 ∷ 9 ∷ 5 ∷ []))
    × (◌≡◌ {A = Option ℕ × List ℕ}
        ((try_pop wrapping).0, contents (try_pop wrapping).1)
        (some 8, 9 ∷ []))
    × IsValid (try_push 5 wrapping).1
    × IsValid (try_pop wrapping).1
unfolding Fifo.push Fifo.pop
ring_refines_example = ring_refines 5 wrapping wrapping-IsValid

-- The producer pushes 5, and the consumer pops it.
Run-initial_example : (◌≡◌ {A = List ℕ} (5 ∷ []) (5 ∷ [])) × (1 ≤ 1) × (1 ≤ 1 + 4)
unfolding initial is_full is_empty_at Ring.write
Run-initial_example =
    Run-initial 2 (λ _. 0) _ (omega arith)
      (goes _ _ _
        (goes _ _ _
          (goes _ _ _
            (goes _ _ _
              (goes _ _ _
                (goes _ _ _ (stays (initial (λ _. 0)))
                  (load_tail (initial (λ _. 0)) 5 0 refl (omega arith) (omega arith)))
                (write_slot _ 5 refl))
              (store_head _ 5 refl))
            (load_head _ 1 refl (omega arith) (omega arith)))
          (read_slot _ refl))
        (store_tail _ 5 refl))
