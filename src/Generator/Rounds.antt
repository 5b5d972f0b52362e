-- ===== src/Generator/Rounds.antt =====
-- What a round of the main stream of mvp/bench/gen_ticks.cpp does.
use low_latency_hft_matching.Base.{
  ℕ, ◌+◌, ◌-◌, ◌%◌, ◌^◌, ◌≤◌, ◌<◌, ◌≡◌, refl, ◌∙◌, subst, List, [], ◌∷◌, ◌++◌, append_assoc,
  Bool-cases, none, some, Option-cases, ltb, length, get_elem?, inl, inr, arith, IsPos, false,
  if-true,
}
use low_latency_hft_matching.Backtest.{Tick}
use low_latency_hft_matching.Strategy.{increment}
use low_latency_hft_matching.Generator.{
  Draws, Generator, swap_remove, add_tick, print_tick, cancel_tick, cancel_round, stream_round,
}
use low_latency_hft_matching.Generator.Streams.{IsOrderly, opens, closes, prints, swap_remove-Perm}
use mathlib.Core.List.{Permᴰ}
use mathlib.Core.List.Permᴰ

-- What the distributions promise: a gap of 10 µs at most, positive quantities, an index that is not
-- above its bound.
pub record IsDrawn (d : Draws) : Type 0 where
  pub gap_bound : (k : ℕ) → d.gap_ns k ≤ 10000
  pub seed_qty : (k : ℕ) → IsPos (d.seed_qty k)
  pub qty : (k : ℕ) → IsPos (d.qty k)
  pub pick_bound : (k n : ℕ) → d.pick k n ≤ n

-- The orders that are open are the live ones and those of the seeding, which are never cancelled.
pub record Fits (now : ℕ) (open_ids seeds : List ℕ) (g : Generator) : Type 0 where
  pub in_time : now ≤ g.ts
  pub same : Permᴰ open_ids (g.live_ext_ids ++ seeds)

-- The generator has gone on by a round.
pub record Moves (g g' : Generator) : Type 0 where
  pub time : g'.ts ≤ g.ts + 10000
  pub ids : g'.next_ext ≤ g.next_ext + 1

-- A round is without a tick, which needs a draw of 90 or more, or puts one in front of the stream.
pub data Extends (d : Draws) (k now : ℕ) (open_ids seeds : List ℕ) (g : Generator) : Type 0 where
  skips :
      (g' : Generator)
      → stream_round d k g ≡ (none, g')
      → ltb (d.roll k) 90 ≡ false
      → Moves g g'
      → Fits now open_ids seeds g'
      → g'.next_ext ≡ g.next_ext
      → Extends d k now open_ids seeds g
  writes :
      (t : Tick) (g' : Generator) (open' : List ℕ)
      → stream_round d k g ≡ (some t, g')
      → Moves g g'
      → Fits t.ts_ns open' seeds g'
      → ((ts : List Tick)
          → IsOrderly t.ts_ns g'.next_ext open' ts
          → IsOrderly now g.next_ext open_ids (t ∷ ts))
      → Extends d k now open_ids seeds g

push_back-Perm :
    (x : ℕ) (open_ids live seeds : List ℕ)
    → Permᴰ open_ids (live ++ seeds)
    → Permᴰ (x ∷ open_ids) ((live ++ x ∷ []) ++ seeds)
push_back-Perm x open_ids live seeds p =
    rw (append_assoc live (x ∷ []) seeds)
      (Permᴰ.trans (Permᴰ.cons refl p) (Permᴰ.symm (Permᴰ.middle x live seeds)))

increment_small : (n : ℕ) → n + 1 < 2 ^ 64 → increment n ≡ n + 1
increment_small n h = omega (arith, h)

module _ (d : Draws) (h : IsDrawn d) (k now : ℕ) (open_ids seeds : List ℕ) where
  cancel_round-Extends :
      (g g1 : Generator)
      → g1.ts ≡ g.ts + d.gap_ns k
      → g1.next_ext ≡ g.next_ext
      → Fits now open_ids seeds g1
      → stream_round d k g ≡ cancel_round d k g1
      → ltb (d.roll k) 90 ≡ false
      → Extends d k now open_ids seeds g
  unfolding cancel_round cancel_tick
  cancel_round-Extends g g1 t n f e r =
      let idx = d.pick k (length g1.live_ext_ids - 1) in
      let moved : Moves g g1 = record {
        time = omega (arith, t, h.gap_bound k);
        ids = omega (arith, n);
      } in
      elim (Option-cases (get_elem? g1.live_ext_ids idx)) [
        | inl out ↦ skips g1 (e ∙ rw (out, cancel_round) refl) r moved f n
        | inr (id, found) ↦
            let rest = swap_remove idx g1.live_ext_ids in
            let gone = Permᴰ.append_right seeds (swap_remove-Perm idx id g1.live_ext_ids found) in
            writes (cancel_tick id g1) (record g1 { live_ext_ids = rest }) (rest ++ seeds)
              (e ∙ rw (found, cancel_round) refl)
              (record { time = omega (arith, t, h.gap_bound k); ids = omega (arith, n) })
              (record { in_time = omega arith; same = Permᴰ.refl (rest ++ seeds) })
              (λ ts o.
                closes (cancel_tick id g1) ts (rest ++ seeds) refl f.in_time
                  (Permᴰ.trans f.same gone) (subst (λ x. IsOrderly g1.ts x (rest ++ seeds) ts) n o))
      ]

  pub stream_round-Extends :
      (g : Generator)
      → g.ts + 10000 < 2 ^ 64
      → g.next_ext + 1 < 2 ^ 64
      → Fits now open_ids seeds g
      → Extends d k now open_ids seeds g
  unfolding stream_round add_tick print_tick
  stream_round-Extends g time ids f =
      let ts' = (g.ts + d.gap_ns k) % 2 ^ 64 in
      let t : ts' ≡ g.ts + d.gap_ns k = omega (arith, h.gap_bound k, time) in
      let g1 = record g { ts = ts' } in
      let later : now ≤ ts' = omega (arith, t, f.in_time) in
      elim (Bool-cases (ltb (d.roll k) 70)) [
        | inl adds_one ↦
            writes (add_tick d k g1) _ (g.next_ext ∷ open_ids)
              (if-true (ltb (d.roll k) 70) _ _ adds_one)
              (record { time = omega (arith, t, h.gap_bound k); ids = omega (arith, ids) })
              (record {
                in_time = omega arith;
                same = push_back-Perm g.next_ext open_ids g.live_ext_ids seeds f.same;
              })
              (λ ts o. opens (add_tick d k g1) ts refl later (omega arith) (h.qty k) (
                subst (λ x. IsOrderly ts' x (g.next_ext ∷ open_ids) ts)
                  (increment_small g.next_ext ids) o))
        | inr not_add ↦ elim (Bool-cases (ltb (d.roll k) 90)) [
          | inl prints_one ↦
              writes (print_tick d k g1) g1 open_ids (rw (not_add, prints_one) refl)
                (record { time = omega (arith, t, h.gap_bound k); ids = omega (arith, ids) })
                (record { in_time = omega arith; same = f.same })
                (λ ts o. prints (print_tick d k g1) ts refl later (h.qty k) o)
          | inr cancels_one ↦
              cancel_round-Extends g g1 t refl (record { in_time = later; same = f.same })
                (rw (not_add, cancels_one) refl) cancels_one
        ]
      ]
