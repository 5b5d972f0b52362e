-- ===== src/Ring/Threads/Handoff.antt =====
-- The hand-off between the two threads of mvp/src/spsc_ring.h: nothing is lost, doubled, reordered or
-- overwritten.
use low_latency_hft_matching.Base.{
  ℕ, zero, suc, ◌+◌, ◌-◌, ◌%◌, ◌^◌, ◌≤◌, ◌<◌, ◌≡◌, refl, ap, ap₂, sym, ◌∙◌, subst, [], ◌∷◌, ◌++◌,
  if◌then◌else◌, ltb, ◌==◌, append_assoc, arith, Bool-cases, inl, inr,
}
use low_latency_hft_matching.Ring.{size_max, add_size, sub_size, write}
use low_latency_hft_matching.Ring.Queue.{
  window, cap-le, mask_wrap, step-mod-ne, write_self, write_ne,
}
use low_latency_hft_matching.Ring.Threads.{
  Producer, pushes_none, writes, publishes, Consumer, pops_none, reads, releases, Threads, is_full,
  is_empty_at, initial, Step, load_tail, write_slot, store_head, load_head, read_slot, store_tail,
  Run, stays, goes,
}

-- The tests of the code, on wrapped indices, are those on the true counts.
is_full_lem : (c p t : ℕ) → c ≤ 2 ^ 63 → t ≤ p → p ≤ t + c → is_full c p t ≡ ltb (t + c) (p + 1)
unfolding is_full
is_full_lem c p t small le room =
    let e : sub_size (add_size (p % size_max) 1) (t % size_max) ≡ p + 1 - t = omega arith in
    rw e (ground arith)

is_empty_at_lem : (c p h : ℕ) → c ≤ 2 ^ 63 → p ≤ h → h ≤ p + c → is_empty_at p h ≡ (p == h)
unfolding is_empty_at
is_empty_at_lem c p h small le room = ground arith

module _ {ℓ} {T : Type ℓ} where
  -- The window does not see a write just past it.
  window-beyond :
      (buf : ℕ → T) (c t n i : ℕ) (v : T)
      → 0 < c
      → n < c
      → i ≡ (t + n) % c
      → window (write i v buf) c t n ≡ window buf c t n
  window-beyond buf c t zero i v pos room e = refl
  window-beyond buf c t (suc n) i v pos room e =
      let at : i ≡ (t + 1 + n) % c = e ∙ ap (λ k. k % c) (omega arith) in
      ap₂ ◌∷◌ (write_ne buf i (t % c) v (λ h. step-mod-ne c t n pos room (sym (h ∙ e))))
        (window-beyond buf c (t + 1) n i v pos (omega arith) at)

  window-last :
      (buf : ℕ → T) (c t n : ℕ)
      → window buf c t (suc n) ≡ window buf c t n ++ buf ((t + n) % c) ∷ []
  window-last buf c t zero = ap (λ k. buf (k % c) ∷ []) (omega arith)
  window-last buf c t (suc n) =
      ap (λ ws. buf (t % c) ∷ ws)
        (window-last buf c (t + 1) n
          ∙ ap (λ k. window buf c (t + 1) n ++ buf (k % c) ∷ []) (omega arith))

  -- The producer has room for the value that it carries, and has written what it publishes.
  abbrev pub HasRoom : ℕ → (ℕ → T) → ℕ → ℕ → Producer T → Type ℓ
  HasRoom c buf pushed seen_tail pushes_none = Unit
  HasRoom c buf pushed seen_tail (writes v) = Unit {ℓ} × (pushed + 1 ≤ seen_tail + c)
  HasRoom c buf pushed seen_tail (publishes v) =
      (buf (pushed % c) ≡ v) × (pushed + 1 ≤ seen_tail + c)

  -- The consumer has an element to read, and carries the one in the slot.
  abbrev pub HasNext : ℕ → (ℕ → T) → ℕ → ℕ → Consumer T → Type ℓ
  HasNext c buf popped seen_head pops_none = Unit
  HasNext c buf popped seen_head reads = Unit {ℓ} × (popped < seen_head)
  HasNext c buf popped seen_head (releases v) = (v ≡ buf (popped % c)) × (popped < seen_head)

  pub record IsSafe (c : ℕ) (s : Threads T) : Type ℓ where
    pub low : s.seen_tail ≤ s.popped
    pub mid : s.popped ≤ s.seen_head
    pub high : s.seen_head ≤ s.pushed
    pub room : s.pushed ≤ s.seen_tail + c
    pub producer : HasRoom c s.buf s.pushed s.seen_tail s.producer
    pub consumer : HasNext c s.buf s.popped s.seen_head s.consumer
    pub history : s.received ++ window s.buf c s.popped (s.pushed - s.popped) ≡ s.sent

  initial-IsSafe : (c : ℕ) (buf : ℕ → T) → IsSafe c (initial buf)
  unfolding initial
  initial-IsSafe c buf = record {
    low = omega arith;
    mid = omega arith;
    high = omega arith;
    room = omega arith;
    producer = tt;
    consumer = tt;
    history = refl;
  }

  -- A write at the producer's slot leaves the consumer's slot alone.
  write-HasNext :
      (c pushed popped seen_head : ℕ) (v : T) (buf : ℕ → T) (k : Consumer T)
      → 0 < c
      → seen_head ≤ pushed
      → pushed + 1 ≤ popped + c
      → HasNext c buf popped seen_head k
      → HasNext c (write (pushed % c) v buf) popped seen_head k
  write-HasNext c pushed popped seen_head v buf pops_none pos le room h = tt
  write-HasNext c pushed popped seen_head v buf reads pos le room h = h
  write-HasNext c pushed popped seen_head v buf (releases w) pos le room h =
      let d = pushed - popped - 1 in
      let e : popped + suc d ≡ pushed = omega (arith, h.1) in
      let ne = step-mod-ne c popped d pos (omega (arith, h.1)) in
      (
        h.0 ∙ sym (write_ne buf (pushed % c) (popped % c) v (λ q. ne (ap (λ m. m % c) e ∙ sym q))),
        h.1,
      )

  module _ (k : ℕ) (small : k < 64) where
    load_tail-IsSafe :
        (s : Threads T) (v : T) (tail : ℕ)
        → s.seen_tail ≤ tail
        → tail ≤ s.popped
        → IsSafe (2 ^ k) s
        → HasRoom
            (2 ^ k)
            s.buf
            s.pushed
            tail
            (if is_full (2 ^ k) s.pushed tail then pushes_none else writes v)
    load_tail-IsSafe s v tail h j safe =
        let (le, pos) = cap-le k small in
        let test =
          is_full_lem (2 ^ k) s.pushed tail (omega (arith, le))
            (omega (arith, j, safe.mid, safe.high)) (omega (arith, h, safe.room)) in
        elim (Bool-cases (ltb (tail + 2 ^ k) (s.pushed + 1))) [
          | inl full ↦ rw (test, full) tt
          | inr fits ↦ rw (test, fits) (tt, ground (arith, fits))
        ]

    load_head-IsSafe :
        (s : Threads T) (head : ℕ)
        → s.seen_head ≤ head
        → head ≤ s.pushed
        → IsSafe (2 ^ k) s
        → HasNext
            (2 ^ k)
            s.buf
            s.popped
            head
            (if is_empty_at s.popped head then pops_none else reads)
    load_head-IsSafe s head h j safe =
        let (le, pos) = cap-le k small in
        let test =
          is_empty_at_lem (2 ^ k) s.popped head (omega (arith, le)) (omega (arith, h, safe.mid))
            (omega (arith, j, safe.low, safe.room)) in
        elim (Bool-cases (s.popped == head)) [
          | inl empty ↦ rw (test, empty) tt
          | inr more ↦ rw (test, more) (tt, ground (arith, more, h, safe.mid))
        ]

    -- Every access of either thread keeps the ring safe.
    Step-IsSafe : (s t : Threads T) → Step (2 ^ k) s t → IsSafe (2 ^ k) s → IsSafe (2 ^ k) t
    Step-IsSafe _ _ (load_tail s v tail idle h j) safe = record {
      low = j;
      mid = safe.mid;
      high = safe.high;
      room = omega (arith, h, safe.room);
      producer = load_tail-IsSafe s v tail h j safe;
      consumer = safe.consumer;
      history = safe.history;
    }
    Step-IsSafe _ _ (write_slot s v at) safe =
        let (le, pos) = cap-le k small in
        let c = 2 ^ k in
        let (_, fits) = subst (HasRoom c s.buf s.pushed s.seen_tail) at safe.producer in
        let slot = mask_wrap k s.pushed small in
        let n = s.pushed - s.popped in
        let e : s.popped + n ≡ s.pushed = omega (arith, safe.mid, safe.high) in
        record {
          low = safe.low;
          mid = safe.mid;
          high = safe.high;
          room = safe.room;
          producer = (
            ap (λ i. write (s.pushed % size_max % c) v s.buf i) (sym slot) ∙ write_self s.buf _ v,
            fits,
          );
          consumer = rw slot (
              write-HasNext c s.pushed s.popped s.seen_head v s.buf s.consumer pos safe.high
                (omega (arith, fits, safe.low)) safe.consumer);
          history =
              ap (λ ws. s.received ++ ws)
                (window-beyond s.buf c s.popped n (s.pushed % size_max % c) v pos
                  (omega (arith, fits, safe.low)) (slot ∙ ap (λ m. m % c) (sym e)))
              ∙ safe.history;
        }
    Step-IsSafe _ _ (store_head s v at) safe =
        let c = 2 ^ k in
        let (written, fits) = subst (HasRoom c s.buf s.pushed s.seen_tail) at safe.producer in
        let n = s.pushed - s.popped in
        let e : s.popped + n ≡ s.pushed = omega (arith, safe.mid, safe.high) in
        let more : s.pushed + 1 - s.popped ≡ suc n = omega (arith, safe.mid, safe.high) in
        let last =
          window-last s.buf c s.popped n
          ∙ ap (λ x. window s.buf c s.popped n ++ x ∷ []) (ap (λ m. s.buf (m % c)) e ∙ written) in
        record {
          low = safe.low;
          mid = safe.mid;
          high = omega (arith, safe.high);
          room = fits;
          producer = tt;
          consumer = safe.consumer;
          history =
              ap (λ m. s.received ++ window s.buf c s.popped m) more
              ∙ ap (λ ws. s.received ++ ws) last
              ∙ sym (append_assoc s.received (window s.buf c s.popped n) (v ∷ []))
              ∙ ap (λ ws. ws ++ v ∷ []) safe.history;
        }
    Step-IsSafe _ _ (load_head s head idle h j) safe = record {
      low = safe.low;
      mid = omega (arith, safe.mid, h);
      high = j;
      room = safe.room;
      producer = safe.producer;
      consumer = load_head-IsSafe s head h j safe;
      history = safe.history;
    }
    Step-IsSafe _ _ (read_slot s at) safe =
        let c = 2 ^ k in
        let (_, next) = subst (HasNext c s.buf s.popped s.seen_head) at safe.consumer in
        record {
          low = safe.low;
          mid = safe.mid;
          high = safe.high;
          room = safe.room;
          producer = safe.producer;
          consumer = (ap s.buf (mask_wrap k s.popped small), next);
          history = safe.history;
        }
    Step-IsSafe _ _ (store_tail s v at) safe =
        let c = 2 ^ k in
        let (carried, next) = subst (HasNext c s.buf s.popped s.seen_head) at safe.consumer in
        let n = s.pushed - (s.popped + 1) in
        let more : s.pushed - s.popped ≡ suc n = omega (arith, next, safe.high) in
        record {
          low = omega (arith, safe.low);
          mid = omega (arith, next);
          high = safe.high;
          room = safe.room;
          producer = safe.producer;
          consumer = tt;
          history =
              append_assoc s.received (v ∷ []) (window s.buf c (s.popped + 1) n)
              ∙ ap (λ x. s.received ++ x ∷ window s.buf c (s.popped + 1) n) carried
              ∙ ap (λ m. s.received ++ window s.buf c s.popped m) (sym more)
              ∙ safe.history;
        }

    Run-IsSafe : (s t : Threads T) → Run (2 ^ k) s t → IsSafe (2 ^ k) s → IsSafe (2 ^ k) t
    Run-IsSafe _ _ (stays s) safe = safe
    Run-IsSafe _ _ (goes s t u run step) safe = Step-IsSafe t u step (Run-IsSafe s t run safe)

  -- However the two threads interleave, and however stale the indices are that they load, a ring of
  -- 2^k slots, k below 64, has at most 2^k elements inside, and what the consumer has received
  -- followed by what is inside is what the producer has sent, in this order.
  pub Run-initial :
      (k : ℕ) (buf : ℕ → T) (s : Threads T)
      → k < 64
      → Run (2 ^ k) (initial buf) s
      → (s.received ++ window s.buf (2 ^ k) s.popped (s.pushed - s.popped) ≡ s.sent)
        × (s.popped ≤ s.pushed)
        × (s.pushed ≤ s.popped + 2 ^ k)
  Run-initial k buf s small run =
      let safe = Run-IsSafe k small _ _ run (initial-IsSafe (2 ^ k) buf) in
      (safe.history, omega (arith, safe.mid, safe.high), omega (arith, safe.low, safe.room))
