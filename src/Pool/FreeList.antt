-- ===== src/Pool/FreeList.antt =====
-- The free list of the pool, as the list of its slots: allocation hands out each slot once.
use low_latency_hft_matching.Base.{
  ℕ, zero, suc, ◌+◌, ◌%◌, ◌^◌, ◌≤◌, ◌<◌, ◌≡◌, refl, ap, ◌∙◌, List, [], ◌∷◌, Bool, false, Option,
  none, some, length, arith, ◌==◌, ◌||◌, ◌⊎◌, inl, inr,
}
use low_latency_hft_matching.Pool.{
  Slot, next, storage, ObjectPool, write, link, thread_slot, thread, new_pool, acquire, construct,
  release,
}

abbrev pub has : ℕ → List ℕ → Bool
has a [] = false
has a (s ∷ ss) = (a == s) || has a ss

abbrev pub head_of : List ℕ → Option ℕ
head_of [] = none
head_of (s ∷ _) = some s

abbrev pub Within : ℕ → List ℕ → Type 0
Within n [] = Unit {0}
Within n (s ∷ ss) = (s < n) × Within n ss

-- The slots below `i`, ascending, in front of a list.
abbrev pub below : ℕ → List ℕ → List ℕ
below zero ss = ss
below (suc i) ss = below i (i ∷ ss)

abbrev AllFrom : ℕ → List ℕ → Type 0
AllFrom i [] = Unit {0}
AllFrom i (s ∷ ss) = (i ≤ s) × AllFrom i ss

AllFrom-down : (i : ℕ) (ss : List ℕ) → AllFrom (suc i) ss → AllFrom i ss
AllFrom-down i [] h = tt
AllFrom-down i (s ∷ ss) h = (omega arith, AllFrom-down i ss h.1)

AllFrom-has : (i : ℕ) (ss : List ℕ) → AllFrom (suc i) ss → has i ss ≡ false
AllFrom-has i [] h = refl
AllFrom-has i (s ∷ ss) h = ground (arith, AllFrom-has i ss h.1)

length-below : (i : ℕ) (ss : List ℕ) → length (below i ss) ≡ i + length ss
length-below zero ss = omega arith
length-below (suc i) ss = omega (arith, length-below i (i ∷ ss))

Within-below : (n i : ℕ) (ss : List ℕ) → i ≤ n → Within n ss → Within n (below i ss)
Within-below n zero ss h w = w
Within-below n (suc i) ss h w = Within-below n i (i ∷ ss) (omega arith) (omega arith, w)

module _ {ℓ} {T : Type ℓ} where
  -- From each slot of the list the link leads to the one behind it, and no slot comes twice.
  abbrev pub Linked : (ℕ → Slot T) → List ℕ → Type ℓ
  Linked slab [] = Unit
  Linked slab (s ∷ ss) = (slab s ≡ next (head_of ss)) × (has s ss ≡ false) × Linked slab ss

  pub record FreeList (p : ObjectPool T) (ss : List ℕ) : Type ℓ where
    pub head : p.free_head ≡ head_of ss
    pub linked : Linked p.slab ss
    pub within : Within p.capacity ss
    pub count : p.in_use + length ss ≡ p.capacity
    pub small : p.capacity < 2 ^ 64

  Linked-write :
      (slab : ℕ → Slot T) (a : ℕ) (v : Slot T) (ss : List ℕ)
      → has a ss ≡ false
      → Linked slab ss
      → Linked (write a v slab) ss
  unfolding write
  Linked-write slab a v [] out l = tt
  Linked-write slab a v (s ∷ ss) out l =
      (ground (arith, l.0), l.1, Linked-write slab a v ss (ground arith) l.2)

  write_self : (slab : ℕ → Slot T) (a : ℕ) (v : Slot T) → write a v slab a ≡ v
  unfolding write
  write_self slab a v = ground arith

  acquire-none : (p : ObjectPool T) → p.free_head ≡ none → acquire p ≡ (none, p)
  unfolding acquire
  acquire-none p e = ground arith

  -- `acquire` on a pool whose list begins with `s`.
  abbrev taken : ℕ → ObjectPool T → ObjectPool T
  taken s p = record p { free_head = link (p.slab s); in_use = (p.in_use + 1) % 2 ^ 64 }

  acquire-some : (p : ObjectPool T) (s : ℕ) → p.free_head ≡ some s → acquire p ≡ (some s, taken s p)
  unfolding acquire
  acquire-some p s e = rw (e, acquire)

  taken-FreeList :
      (p : ObjectPool T) (s : ℕ) (rest : List ℕ) → FreeList p (s ∷ rest) → FreeList (taken s p) rest
  taken-FreeList p s rest f = record {
    head = ap link f.linked.0;
    linked = f.linked.2;
    within = f.within.1;
    count = omega (arith, f.count, f.small);
    small = f.small;
  }

  -- On a pool with free slots `ss`: `acquire` returns null exactly when every slot is taken, and
  -- otherwise a slot that is from then on free no more.
  pub acquire-FreeList :
      (p : ObjectPool T) (ss : List ℕ)
      → FreeList p ss
      → ((p.in_use ≡ p.capacity) × (acquire p ≡ (none, p)))
        ⊎ ((s : ℕ) × (rest : List ℕ) × (ss ≡ s ∷ rest)
            × (has s rest ≡ false)
            × (s < p.capacity)
            × ((acquire p).0 ≡ some s)
            × ((acquire p).1.in_use ≡ p.in_use + 1)
            × FreeList (acquire p).1 rest)
  acquire-FreeList p [] f = inl (omega (arith, f.count), acquire-none p f.head)
  acquire-FreeList p (s ∷ rest) f = inr (
    s,
    rest,
    refl,
    f.linked.1,
    f.within.0,
    ap (λ r. r.0) (acquire-some p s f.head),
    ap (λ r. r.1.in_use) (acquire-some p s f.head) ∙ omega (arith, f.count, f.small),
    rw (acquire-some p s f.head) (taken-FreeList p s rest f),
  )

  -- Building an object in a slot that is not free leaves the free list alone.
  pub construct-FreeList :
      (p : ObjectPool T) (ss : List ℕ) (s : ℕ) (t : T)
      → has s ss ≡ false
      → FreeList p ss
      → FreeList (construct s t p) ss
  unfolding construct
  construct-FreeList p ss s t out f = record {
    head = f.head;
    linked = Linked-write p.slab s (storage t) ss out f.linked;
    within = f.within;
    count = f.count;
    small = f.small;
  }

  -- A slot that goes back is the next one to be handed out; one that is free already may not go back.
  pub release-FreeList :
      (p : ObjectPool T) (ss : List ℕ) (s : ℕ)
      → has s ss ≡ false
      → s < p.capacity
      → 0 < p.in_use
      → FreeList p ss
      → FreeList (release s p) (s ∷ ss)
        × ((release s p).in_use + 1 ≡ p.in_use)
        × ((acquire (release s p)).0 ≡ some s)
  unfolding release
  release-FreeList p ss s out h k f = (
    record {
      head = refl;
      linked = (
        write_self p.slab s (next p.free_head) ∙ ap next f.head,
        out,
        Linked-write p.slab s (next p.free_head) ss out f.linked,
      );
      within = (h, f.within);
      count = omega (arith, f.count, f.small);
      small = f.small;
    },
    omega (arith, f.count, f.small),
    ap (λ r. r.0) (acquire-some (release s p) s refl),
  )

  thread-Linked :
      (i : ℕ) (p : ObjectPool T) (ss : List ℕ)
      → AllFrom i ss
      → p.free_head ≡ head_of ss
      → Linked p.slab ss
      → ((thread i p).free_head ≡ head_of (below i ss))
        × Linked (thread i p).slab (below i ss)
        × ((thread i p).capacity ≡ p.capacity)
        × ((thread i p).in_use ≡ p.in_use)
  unfolding thread thread_slot
  thread-Linked zero p ss far h l = (h, l, refl, refl)
  thread-Linked (suc i) p ss far h l =
      thread-Linked i (thread_slot i p) (i ∷ ss) (omega arith, AllFrom-down i ss far) refl
        (
          write_self p.slab i (next p.free_head) ∙ ap next h,
          AllFrom-has i ss far,
          Linked-write p.slab i (next p.free_head) ss (AllFrom-has i ss far) l,
        )

  -- The constructor threads every slot of the slab, in ascending order, whatever the slab held.
  pub new_pool-FreeList :
      (capacity : ℕ) (slab : ℕ → Slot T)
      → capacity < 2 ^ 64
      → FreeList (new_pool capacity slab) (below capacity [])
  unfolding new_pool
  new_pool-FreeList capacity slab h =
      let p0 : ObjectPool T = record {
        capacity = capacity;
        slab = slab;
        free_head = none;
        in_use = 0;
      } in
      let (head, linked, cap, used) = thread-Linked capacity p0 [] tt refl tt in
      record {
        head = head;
        linked = linked;
        within = rw cap (Within-below capacity capacity [] (omega arith) tt);
        count = omega (arith, cap, used, length-below capacity []);
        small = rw cap h;
      }
