-- ===== src/Generator/Orderly.antt =====
-- The whole stream of mvp/bench/gen_ticks.cpp.
use low_latency_hft_matching.Base.{
  ℕ, zero, suc, ◌+◌, ◌*◌, ◌^◌, ◌≤◌, ◌<◌, ◌≡◌, refl, sym, ap, ◌∙◌, subst, List, [], ◌∷◌, ◌++◌,
  Option, none, some, ltb, length, length-append, arith, true, false, ◌>>=◌,
}
use low_latency_hft_matching.Backtest.{Tick}
use low_latency_hft_matching.Strategy.{increment}
use low_latency_hft_matching.Generator.{
  Draws, Generator, new_generator, seed_bid, seed_ask, seed_rounds, stream_round, stream, gen_ticks,
}
use low_latency_hft_matching.Generator.Streams.{IsOrderly, ends, opens}
use low_latency_hft_matching.Generator.Rounds.{IsDrawn, Fits, skips, writes, stream_round-Extends}
use mathlib.Core.List.{Permᴰ}
use mathlib.Core.List.Permᴰ

-- Enough rounds for `n` ticks, if `wait` in a row are the most that may go by without one.
abbrev pub rounds : ℕ → ℕ → ℕ
rounds wait zero = 1
rounds wait (suc n) = rounds wait n + (wait + 1)

-- The same if the next tick is at most `w` rounds off.
abbrev enough : ℕ → ℕ → ℕ → ℕ
enough wait zero w = 1
enough wait (suc n) w = rounds wait n + w + 1

enough-rounds : (wait n w : ℕ) → w ≤ wait → enough wait n w ≤ rounds wait n
enough-rounds wait zero w h = omega arith
enough-rounds wait (suc n) w h = omega (arith, h)

-- In no place do more than `wait` draws in a row ask for a cancel.
abbrev pub IsVaried : ℕ → Draws → Type 0
IsVaried wait d = (k : ℕ) → (w : ℕ) × (w ≤ wait) × (ltb (d.roll (k + w)) 90 ≡ true)

-- The next tick is a round nearer.
nearer :
    (d : Draws) (k w : ℕ)
    → ltb (d.roll (k + w)) 90 ≡ true
    → ltb (d.roll k) 90 ≡ false
    → (w' : ℕ) × (w ≡ suc w') × (ltb (d.roll (k + 1 + w')) 90 ≡ true)
nearer d k zero r late =
    let same : k + 0 ≡ k = omega arith in
    let early = subst (λ x. ltb (d.roll x) 90 ≡ true) same r in cc
nearer d k (suc w) r late =
    let same : k + suc w ≡ k + 1 + w = omega arith in
    (w, refl, subst (λ x. ltb (d.roll x) 90 ≡ true) same r)

stream-skips :
    (d : Draws) (fuel n k : ℕ) (g g' : Generator)
    → stream_round d k g ≡ (none, g')
    → stream d (suc fuel) (suc n) k g ≡ stream d fuel (suc n) (k + 1) g'
unfolding stream
stream-skips d fuel n k g g' step =
    rw (step, stream) (ap (λ (r : Option Tick × Generator). stream d fuel (suc n) (k + 1) r.1) step)

stream-writes :
    (d : Draws) (fuel n k : ℕ) (t : Tick) (g g' : Generator) (ts : List Tick)
    → stream_round d k g ≡ (some t, g')
    → stream d fuel n (k + 1) g' ≡ some ts
    → stream d (suc fuel) (suc n) k g ≡ some (t ∷ ts)
unfolding stream
stream-writes d fuel n k t g g' ts step s =
    rw (step, stream)
      (ap (λ o. o >>= λ ts'. some (t ∷ ts'))
        (ap (λ (r : Option Tick × Generator). stream d fuel n (k + 1) r.1) step ∙ s))

module _ (d : Draws) (h : IsDrawn d) (wait : ℕ) (varied : IsVaried wait d) where
  stream-IsOrderly :
      (fuel n k w now : ℕ) (open_ids seeds : List ℕ) (g : Generator)
      → enough wait n w ≤ fuel
      → ltb (d.roll (k + w)) 90 ≡ true
      → g.ts + 10000 * fuel < 2 ^ 64
      → g.next_ext + fuel < 2 ^ 64
      → Fits now open_ids seeds g
      → (ts : List Tick) × (stream d fuel n k g ≡ some ts)
        × IsOrderly now g.next_ext open_ids ts
        × (length ts ≡ n)
  unfolding stream
  stream-IsOrderly zero zero k w now open_ids seeds g e r t i f = absurd (omega (arith, e))
  stream-IsOrderly zero (suc n) k w now open_ids seeds g e r t i f = absurd (omega (arith, e))
  stream-IsOrderly (suc fuel) zero k w now open_ids seeds g e r t i f = ([], refl, ends, refl)
  stream-IsOrderly (suc fuel) (suc n) k w now open_ids seeds g e r t i f =
      elim (stream_round-Extends d h k now open_ids seeds g (omega (arith, t)) (omega (arith, i))
        f) [
          | skips g' step late moved f' same ↦
              let (w', off, r') = nearer d k w r late in
              let (ts, s, o, l) =
                stream-IsOrderly fuel (suc n) (k + 1) w' now open_ids seeds g'
                  (omega (arith, e, off)) r' (omega (arith, t, moved.time))
                  (omega (arith, i, moved.ids)) f' in
              (
                ts,
                stream-skips d fuel n k g g' step ∙ s,
                subst (λ x. IsOrderly now x open_ids ts) same o,
                l,
              )
          | writes tick g' open' step moved f' front ↦
              let (w', near, r') = varied (k + 1) in
              let (ts, s, o, l) =
                stream-IsOrderly fuel n (k + 1) w' tick.ts_ns open' seeds g'
                  (omega (arith, e, enough-rounds wait n w' near)) r' (omega (arith, t, moved.time))
                  (omega (arith, i, moved.ids)) f' in
              (tick ∷ ts, stream-writes d fuel n k tick g g' ts step s, front ts o, ap suc l)
        ]

  -- What the seeding rounds put in front of a stream.
  seed_rounds-IsOrderly :
      (left i now : ℕ) (open_ids : List ℕ) (g : Generator)
      → g.ts + 2 * left < 2 ^ 64
      → g.next_ext + 2 * left < 2 ^ 64
      → now ≤ g.ts
      → let r = seed_rounds d left i g in
        (r.1.live_ext_ids ≡ g.live_ext_ids)
        × (r.1.ts ≡ g.ts + 2 * left)
        × (r.1.next_ext ≡ g.next_ext + 2 * left)
        × (length r.0 ≡ 2 * left)
        × (now' : ℕ) × (open' : List ℕ) × (now' ≤ r.1.ts)
        × ((ts : List Tick)
            → IsOrderly now' r.1.next_ext open' ts
            → IsOrderly now g.next_ext open_ids (r.0 ++ ts))
  unfolding seed_rounds seed_bid seed_ask
  seed_rounds-IsOrderly zero i now open_ids g t n l =
      (refl, omega arith, omega arith, refl, now, open_ids, l, λ ts o. o)
  seed_rounds-IsOrderly (suc left) i now open_ids g t n l =
      let g2 = record g {
        ts = increment (increment g.ts);
        next_ext = increment (increment g.next_ext);
      } in
      let asked = increment g.next_ext ∷ g.next_ext ∷ open_ids in
      let later = (seed_rounds d left (i + 1) g2).0 in
      let ids : increment (increment g.next_ext) ≡ increment g.next_ext + 1 = omega (arith, n) in
      let (a, b, c, e, now', open', le, o) =
        seed_rounds-IsOrderly left (i + 1) (increment g.ts) asked g2 (omega (arith, t))
          (omega (arith, n)) (omega (arith, t)) in
      (
        a,
        b ∙ omega (arith, t),
        c ∙ omega (arith, n),
        omega (arith, e),
        now',
        open',
        le,
        λ ts rest. opens (seed_bid d i g) _ refl l (omega arith) (h.seed_qty i) (
            opens (seed_ask d i g) _ refl (omega (arith, t)) (omega (arith, n)) (h.seed_qty i)
              (subst (λ x. IsOrderly (increment g.ts) x asked (later ++ ts)) ids (o ts rest))),
      )

  -- If the distributions keep to their bounds and nowhere more than `wait` draws in a row ask for a
  -- cancel, the generator gives `n` ticks within `n * (wait + 1) + 1` rounds, as long as these are so
  -- few that time does not wrap: the 400 ticks of the seeding and `n` more, in an orderly stream.
  pub gen_ticks-IsOrderly :
      (n : ℕ)
      → 10000 * rounds wait n < 2 ^ 63
      → (ts : List Tick) × (gen_ticks d (rounds wait n) n ≡ some ts)
        × IsOrderly 0 1 [] ts
        × (length ts ≡ 400 + n)
  unfolding gen_ticks new_generator
  gen_ticks-IsOrderly n b =
      let (a, t, i, e, now', open', le, front) =
        seed_rounds-IsOrderly 200 0 0 [] new_generator (omega arith) (omega arith) (omega arith) in
      let g = (seed_rounds d 200 0 new_generator).1 in
      let (w, near, r) = varied 0 in
      let (ts, s, o, l) =
        stream-IsOrderly (rounds wait n) n 0 w now' open' open' g (enough-rounds wait n w near) r
          (omega (arith, t, b)) (omega (arith, i, b))
          (record {
            in_time = le;
            same = subst (λ x. Permᴰ open' (x ++ open')) (sym a) (Permᴰ.refl open');
          }) in
      (
        (seed_rounds d 200 0 new_generator).0 ++ ts,
        ap (λ o. o >>= λ ts. some ((seed_rounds d 200 0 new_generator).0 ++ ts)) s,
        front ts o,
        length-append (seed_rounds d 200 0 new_generator).0 ts ∙ omega (arith, e, l),
      )
