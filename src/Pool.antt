-- ===== src/Pool.antt =====
-- The object pool of mvp/src/pool.h: a slab of slots, the free ones threaded into a list that reuses
-- their storage. Slots are numbered from the start of the slab; a null pointer is `none`.
pub mod FreeList
pub mod Counts
use low_latency_hft_matching.Base.{
  ℕ, zero, suc, ◌+◌, ◌-◌, ◌%◌, ◌^◌, Bool, true, false, Option, none, some, ◌==◌, if◌then◌else◌,
}

-- `union Slot`: a link while the slot is free, the object's storage while it is taken.
pub data Slot {ℓ} (T : Type ℓ) : Type ℓ where
  next : Option ℕ → Slot T
  storage : T → Slot T

pub record ObjectPool {ℓ} (T : Type ℓ) : Type ℓ where
  pub capacity : ℕ
  pub slab : ℕ → Slot T
  pub free_head : Option ℕ
  pub in_use : ℕ

module _ {ℓ} {T : Type ℓ} where
  -- A write to one slot of the slab.
  unfoldable pub write : ℕ → Slot T → (ℕ → Slot T) → ℕ → Slot T
  write s v slab a = if a == s then v else slab a

  -- The link in a slot. A slot that holds an object has none to read; `FreeList` rules that out.
  abbrev pub link : Slot T → Option ℕ
  link (next n) = n
  link (storage _) = none

  -- One round of the constructor's loop.
  unfoldable pub thread_slot : ℕ → ObjectPool T → ObjectPool T
  unfolding write
  thread_slot s p = record p { slab = write s (next p.free_head) p.slab; free_head = some s }

  -- `for (i = capacity_; i-- > 0;)`
  unfoldable pub thread : ℕ → ObjectPool T → ObjectPool T
  unfolding thread_slot
  thread zero p = p
  thread (suc i) p = thread i (thread_slot i p)

  -- The constructor, over a slab that holds anything.
  unfoldable pub new_pool : ℕ → (ℕ → Slot T) → ObjectPool T
  unfolding thread
  new_pool capacity slab =
      thread capacity (record { capacity = capacity; slab = slab; free_head = none; in_use = 0 })

  unfoldable pub acquire : ObjectPool T → Option ℕ × ObjectPool T
  acquire p = elim p.free_head [
    | none ↦ (none, p)
    | some s ↦ (some s, record p { free_head = link (p.slab s); in_use = (p.in_use + 1) % 2 ^ 64 })
  ]

  -- The caller's placement new in the slot.
  unfoldable pub construct : ℕ → T → ObjectPool T → ObjectPool T
  unfolding write
  construct s t p = record p { slab = write s (storage t) p.slab }

  unfoldable pub release : ℕ → ObjectPool T → ObjectPool T
  unfolding write
  release s p = record p {
    slab = write s (next p.free_head) p.slab;
    free_head = some s;
    in_use = (p.in_use + 2 ^ 64 - 1) % 2 ^ 64;
  }

  -- `free()`
  unfoldable pub free_count : ObjectPool T → ℕ
  free_count p = (p.capacity + 2 ^ 64 - p.in_use) % 2 ^ 64
