-- ===== src/Feed/Datagrams.antt =====
-- The datagrams of the feed of mvp/src/md/feed.cpp and their sequence numbers.
use low_latency_hft_matching.Base.{
  ℕ, ◌+◌, ◌%◌, ◌^◌, ◌≤◌, List, [], ◌∷◌, ◌++◌, length, length-append, arith, Bool-cases, inl, inr, ℤ,
  Bool, true, false, if◌then◌else◌,
}
use low_latency_hft_matching.Fix.Numbers.{Bytes}
use low_latency_hft_matching.Platform.{Platform}
use low_latency_hft_matching.Feed.{Feed, new_feed, open_feed, is_closed, l1_line, publish_l1}

-- Lines numbered from 1 on with no gap, and the number of the last.
pub data Lines (P : Platform) : ℕ → List Bytes → Type 0 where
  no_lines : Lines P 0 []
  one_more :
      (n : ℕ) (ls : List Bytes) (symbol : Bytes) (bid_px bid_sz ask_px ask_sz : P.Double)
      → Lines P n ls
      → Lines P
          ((n + 1) % 2 ^ 64)
          (ls ++ l1_line P ((n + 1) % 2 ^ 64) symbol bid_px bid_sz ask_px ask_sz ∷ [])

pub record IsNumbered (P : Platform) (f : Feed) : Type 0 where
  pub lines : Lines P f.seq f.sent
  pub counted : f.published ≤ length f.sent

module _ (P : Platform) where
  pub new_feed-IsNumbered : IsNumbered P new_feed
  unfolding new_feed
  new_feed-IsNumbered = record { lines = no_lines; counted = omega arith }

  pub open_feed-IsNumbered :
      (fd : ℤ) (good_host : Bool) (f : Feed)
      → IsNumbered P f
      → IsNumbered P (open_feed fd good_host f).1
  unfolding open_feed
  open_feed-IsNumbered fd good_host f v = elim (Bool-cases (is_closed fd)) [
    | inl bad ↦ rw bad (record { lines = v.lines; counted = v.counted })
    | inr good ↦ elim (Bool-cases good_host) [
      | inl known ↦ rw (good, known) (record { lines = v.lines; counted = v.counted })
      | inr unknown ↦ rw (good, unknown) (record { lines = v.lines; counted = v.counted })
    ]
  ]

  more :
      (p : ℕ) (b : Bool) (ls : List Bytes) (l : Bytes)
      → p ≤ length ls
      → (if b then (p + 1) % 2 ^ 64 else p) ≤ length (ls ++ l ∷ [])
  more p true ls l h = omega (arith, length-append ls (l ∷ []), h)
  more p false ls l h = omega (arith, length-append ls (l ∷ []), h)

  -- A published snapshot is the next line of the feed, with the sequence number after the last one's;
  -- no more are counted as published than were handed to the socket; a closed feed stays as it was.
  pub publish_l1-IsNumbered :
      (symbol : Bytes) (bid_px bid_sz ask_px ask_sz : P.Double) (f : Feed)
      → IsNumbered P f
      → IsNumbered P (publish_l1 P symbol bid_px bid_sz ask_px ask_sz f).1
  unfolding publish_l1
  publish_l1-IsNumbered symbol bid_px bid_sz ask_px ask_sz f v =
      elim (Bool-cases (is_closed f.fd)) [
        | inl shut ↦ rw shut v
        | inr open_now ↦ rw open_now (record {
          lines = one_more f.seq f.sent symbol bid_px bid_sz ask_px ask_sz v.lines;
          counted = more f.published _ f.sent _ v.counted;
        })
      ]
