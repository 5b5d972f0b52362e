-- ===== src/Generator/Streams.antt =====
-- What a stream of mvp/bench/gen_ticks.cpp is to be, and how its list of live orders shrinks.
use low_latency_hft_matching.Base.{
  ℕ, zero, suc, ◌+◌, ◌≤◌, ◌≡◌, refl, List, [], ◌∷◌, some, get_elem?, set, IsPos, is_empty, false,
  some-eq,
}
use low_latency_hft_matching.Backtest.{Tick, adds, cancels, trades}
use low_latency_hft_matching.Generator.{back, pop_back, swap_remove}
use mathlib.Core.List.{Permᴰ}

-- A stream of events behind time `now`, when ids below `next` are used up and the orders of these ids
-- are open: time does not run backwards, a new order has a new id and a positive quantity, and a
-- cancel names an open order, which is open no more.
pub data IsOrderly : ℕ → ℕ → List ℕ → List Tick → Type 0 where
  ends : {now next : ℕ} {open_ids : List ℕ} → IsOrderly now next open_ids []
  opens :
      {now next : ℕ} {open_ids : List ℕ} (t : Tick) (ts : List Tick)
      → t.event ≡ adds
      → now ≤ t.ts_ns
      → next ≤ t.ext_id
      → IsPos t.qty
      → IsOrderly t.ts_ns (t.ext_id + 1) (t.ext_id ∷ open_ids) ts
      → IsOrderly now next open_ids (t ∷ ts)
  closes :
      {now next : ℕ} {open_ids : List ℕ} (t : Tick) (ts : List Tick) (rest : List ℕ)
      → t.event ≡ cancels
      → now ≤ t.ts_ns
      → Permᴰ open_ids (t.ext_id ∷ rest)
      → IsOrderly t.ts_ns next rest ts
      → IsOrderly now next open_ids (t ∷ ts)
  prints :
      {now next : ℕ} {open_ids : List ℕ} (t : Tick) (ts : List Tick)
      → t.event ≡ trades
      → now ≤ t.ts_ns
      → IsPos t.qty
      → IsOrderly t.ts_ns next open_ids ts
      → IsOrderly now next open_ids (t ∷ ts)

back-pop_back : (v : ℕ) (xs : List ℕ) → back xs ≡ some v → Permᴰ xs (v ∷ pop_back xs)
unfolding back pop_back
back-pop_back v [] e = cc
back-pop_back v (x ∷ []) e = Permᴰ.cons (some-eq e) Permᴰ.nil
back-pop_back v (x ∷ y ∷ ys) e =
    Permᴰ.trans (Permᴰ.cons refl (back-pop_back v (y ∷ ys) e)) (Permᴰ.swap refl refl)

pop_back-cons : (y : ℕ) (w : List ℕ) → is_empty w ≡ false → pop_back (y ∷ w) ≡ y ∷ pop_back w
unfolding pop_back
pop_back-cons y [] e = cc
pop_back-cons y (z ∷ zs) e = refl

is_empty-set : (z : ℕ) (zs : List ℕ) (i v : ℕ) → is_empty (set (z ∷ zs) i v) ≡ false
is_empty-set z zs zero v = refl
is_empty-set z zs (suc i) v = refl

removes :
    (xs : List ℕ) (i x v : ℕ)
    → get_elem? xs i ≡ some x
    → back xs ≡ some v
    → Permᴰ xs (x ∷ pop_back (set xs i v))
unfolding back pop_back
removes [] i x v e f = cc
removes (y ∷ []) zero x v e f = Permᴰ.cons (some-eq e) Permᴰ.nil
removes (y ∷ []) (suc i) x v e f = cc
removes (y ∷ z ∷ zs) zero x v e f = Permᴰ.cons (some-eq e) (back-pop_back v (z ∷ zs) f)
removes (y ∷ z ∷ zs) (suc i) x v e f =
    rw (pop_back-cons y (set (z ∷ zs) i v) (is_empty-set z zs i v))
      (Permᴰ.trans (Permᴰ.cons refl (removes (z ∷ zs) i x v e f)) (Permᴰ.swap refl refl))

back-some : (x : ℕ) (xs : List ℕ) → (v : ℕ) × (back (x ∷ xs) ≡ some v)
unfolding back
back-some x [] = (x, refl)
back-some x (y ∷ ys) = back-some y ys

-- The element at the index goes, the others stay.
pub swap_remove-Perm :
    (i x : ℕ) (xs : List ℕ) → get_elem? xs i ≡ some x → Permᴰ xs (x ∷ swap_remove i xs)
unfolding swap_remove
swap_remove-Perm i x [] e = cc
swap_remove-Perm i x (y ∷ ys) e =
    let (v, f) = back-some y ys in rw (f, swap_remove) (removes (y ∷ ys) i x v e f)
