-- ===== src/Ring/Threads.antt =====
-- The two threads of mvp/src/spsc_ring.h: `try_push` and `try_pop` cut at their atomic accesses, in
-- any interleaving. An acquire load of the other thread's index may return any value that the index
-- has had since the last load. The indices are counted without wrapping; the code's are the
-- remainders by 2^64.
pub mod Handoff
use low_latency_hft_matching.Base.{
  ℕ, ◌+◌, ◌%◌, ◌≤◌, ◌≡◌, List, [], ◌∷◌, ◌++◌, Bool, true, false, if◌then◌else◌, ltb, ◌==◌,
}
use low_latency_hft_matching.Ring.{size_max, add_size, sub_size, write}

-- Where the producer stands in `try_push`, and with which value.
pub data Producer {ℓ} (T : Type ℓ) : Type ℓ where
  pushes_none : Producer T
  writes : T → Producer T
  publishes : T → Producer T

-- Where the consumer stands in `try_pop`.
pub data Consumer {ℓ} (T : Type ℓ) : Type ℓ where
  pops_none : Consumer T
  reads : Consumer T
  releases : T → Consumer T

pub record Threads {ℓ} (T : Type ℓ) : Type ℓ where
  pub buf : ℕ → T
  -- `head_` and `tail_`, unwrapped.
  pub pushed : ℕ
  pub popped : ℕ
  -- The newest values that the other thread has loaded.
  pub seen_tail : ℕ
  pub seen_head : ℕ
  pub producer : Producer T
  pub consumer : Consumer T
  -- What has gone in and what has come out.
  pub sent : List T
  pub received : List T

-- The test of `try_push` for a loaded tail.
unfoldable pub is_full : ℕ → ℕ → ℕ → Bool
is_full capacity pushed tail =
    ltb capacity (sub_size (add_size (pushed % size_max) 1) (tail % size_max))

unfoldable pub is_empty_at : ℕ → ℕ → Bool
is_empty_at popped head = (popped % size_max) == (head % size_max)

module _ {ℓ} {T : Type ℓ} where
  unfoldable pub initial : (ℕ → T) → Threads T
  initial buf = record {
    buf = buf;
    pushed = 0;
    popped = 0;
    seen_tail = 0;
    seen_head = 0;
    producer = pushes_none;
    consumer = pops_none;
    sent = [];
    received = [];
  }

  -- One access of one thread, for a ring of this capacity.
  pub data Step (capacity : ℕ) : Threads T → Threads T → Type ℓ where
    -- The loads of `try_push`; if there is no room it returns false.
    load_tail :
        (s : Threads T) (v : T) (tail : ℕ)
        → s.producer ≡ pushes_none
        → s.seen_tail ≤ tail
        → tail ≤ s.popped
        → Step capacity s (record s {
          seen_tail = tail;
          producer = if is_full capacity s.pushed tail then pushes_none else writes v;
        })
    write_slot :
        (s : Threads T) (v : T)
        → s.producer ≡ writes v
        → Step capacity s (record s {
          buf = write (s.pushed % size_max % capacity) v s.buf;
          producer = publishes v;
        })
    store_head :
        (s : Threads T) (v : T)
        → s.producer ≡ publishes v
        → Step capacity s
            (record s { pushed = s.pushed + 1; producer = pushes_none; sent = s.sent ++ v ∷ [] })
    -- The loads of `try_pop`; on an empty ring it returns false.
    load_head :
        (s : Threads T) (head : ℕ)
        → s.consumer ≡ pops_none
        → s.seen_head ≤ head
        → head ≤ s.pushed
        → Step capacity s (record s {
          seen_head = head;
          consumer = if is_empty_at s.popped head then pops_none else reads;
        })
    read_slot :
        (s : Threads T)
        → s.consumer ≡ reads
        → Step capacity s
            (record s { consumer = releases (s.buf (s.popped % size_max % capacity)) })
    store_tail :
        (s : Threads T) (v : T)
        → s.consumer ≡ releases v
        → Step capacity s (record s {
          popped = s.popped + 1;
          consumer = pops_none;
          received = s.received ++ v ∷ [];
        })

  -- Any sequence of steps.
  pub data Run (capacity : ℕ) : Threads T → Threads T → Type ℓ where
    stays : (s : Threads T) → Run capacity s s
    goes : (s t u : Threads T) → Run capacity s t → Step capacity t u → Run capacity s u
