-- ===== src/Replay/Cancels.antt =====
-- The replay of mvp/src/backtest/replay.cpp on streams as mvp/bench/gen_ticks.cpp writes them.
use low_latency_hft_matching.Base.{
  ℕ, ◌+◌, ◌≤◌, ◌<◌, ◌≡◌, refl, sym, ap, ◌∙◌, subst, List, [], ◌∷◌, true, Option, none, some, ◌==◌,
  if◌then◌else◌, arith, Bool-cases, inl, inr, some-eq, >>=-eq-some, if-false,
}
use low_latency_hft_matching.Strategy.{Desk, update, increment}
use low_latency_hft_matching.Strategy.Delivery.{update_hit, update_miss}
use low_latency_hft_matching.Engine
use low_latency_hft_matching.Backtest.{Tick, side_of_byte, cancels, BookTop}
use low_latency_hft_matching.Replay.{
  Replay, apply_add, apply_cancel, apply_trade, apply_event, tick_all, replay_tick,
}
use low_latency_hft_matching.Generator.Streams.{IsOrderly, ends, opens, closes, prints}
use mathlib.Core.List.{Permᴰ}

-- How often an id is in a list.
abbrev count : ℕ → List ℕ → ℕ
count x [] = 0
count x (y ∷ ys) = (if x == y then 1 else 0) + count x ys

count-Perm : (x : ℕ) (xs ys : List ℕ) → Permᴰ xs ys → count x xs ≡ count x ys
count-Perm x _ _ Permᴰ.nil = refl
count-Perm x _ _ (Permᴰ.cons {a} {b} {l₁} {l₂} e p) = rw (e, count-Perm x l₁ l₂ p) refl
count-Perm x _ _ (Permᴰ.swap {a} {b} {a'} {b'} {l} e f) = rw (e, f) (omega arith)
count-Perm x _ _ (Permᴰ.trans {l₁} {l₂} {l₃} p q) = count-Perm x l₁ l₂ p ∙ count-Perm x l₂ l₃ q

-- Every open id is open once, is used up, and is known to the table.
record IsLinked (next : ℕ) (open_ids : List ℕ) (table : ℕ → Option ℕ) : Type 0 where
  started : 1 ≤ next
  once : (x : ℕ) → count x open_ids ≤ 1
  used : (x : ℕ) → 0 < count x open_ids → x < next
  known : (x : ℕ) → 0 < count x open_ids → (id : ℕ) × (table x ≡ some id)

-- Along a replay every cancel finds the order that it names in the table.
abbrev pub Finds : List (BookTop → Tick → Desk → Option Desk) → List Tick → Replay → Type 0
Finds strategies [] r = Unit
Finds strategies (t ∷ ts) r =
    (t.event ≡ cancels → (id : ℕ) × (r.ext_to_eng t.ext_id ≡ some id))
    × ((r' : Replay) → replay_tick strategies t r ≡ some r' → Finds strategies ts r')

equal : (x y : ℕ) → (x == y) ≡ true → x ≡ y
equal x y e = ground (arith, e)

opens-IsLinked :
    (next id eng : ℕ) (open_ids : List ℕ) (table : ℕ → Option ℕ)
    → next ≤ id
    → IsLinked next open_ids table
    → IsLinked (id + 1) (id ∷ open_ids) (update id (some eng) table)
opens-IsLinked next id eng open_ids table h l =
    let fresh : count id open_ids ≡ 0 = elim (Bool-cases (count id open_ids == 0)) [
      | inl none_there ↦ equal (count id open_ids) 0 none_there
      | inr there ↦ absurd (omega (arith, l.used id (ground (arith, there)), h))
    ] in
    record {
      started = omega arith;
      once = λ x. elim (Bool-cases (x == id)) [
        | inl e ↦
            let now : count x open_ids ≡ 0 = ap (λ y. count y open_ids) (equal x id e) ∙ fresh in
            rw e (omega (arith, now))
        | inr e ↦ rw e (omega (arith, l.once x))
      ];
      used = λ x k. elim (Bool-cases (x == id)) [
        | inl e ↦ omega (arith, equal x id e)
        | inr e ↦ omega (arith, h, l.used x (ground (arith, e, k)))
      ];
      known = λ x k. elim (Bool-cases (x == id)) [
        | inl e ↦ (eng, update_hit id (some eng) table x e)
        | inr e ↦
            let (n, f) = l.known x (ground (arith, e, k)) in
            (n, update_miss id (some eng) table x e ∙ f)
      ];
    }

closes-IsLinked :
    (next id : ℕ) (open_ids rest : List ℕ) (table : ℕ → Option ℕ)
    → Permᴰ open_ids (id ∷ rest)
    → IsLinked next open_ids table
    → IsLinked next rest (update id none table)
closes-IsLinked next id open_ids rest table p l =
    let same = λ (x : ℕ). count-Perm x open_ids (id ∷ rest) p in
    record {
      started = l.started;
      once = λ x. omega (arith, same x, l.once x);
      used = λ x k. l.used x (omega (arith, same x, k));
      known = λ x k. elim (Bool-cases (x == id)) [
        | inl e ↦
            let twice : count x open_ids ≡ 1 + count x rest = same x ∙ rw e refl in
            absurd (omega (arith, twice, l.once x, k))
        | inr e ↦
            let (n, f) = l.known x (omega (arith, same x, k)) in
            (n, update_miss id none table x e ∙ f)
      ];
    }

-- The tick counted.
abbrev consumed : Replay → Replay
consumed r = record r {
  stats = record r.stats { ticks_consumed = increment r.stats.ticks_consumed };
}

replay_tick-table :
    (strategies : List (BookTop → Tick → Desk → Option Desk)) (t : Tick) (r r' : Replay)
    → replay_tick strategies t r ≡ some r'
    → (r1 : Replay) × (apply_event t.event t (consumed r) ≡ some r1)
      × (r'.ext_to_eng ≡ r1.ext_to_eng)
unfolding replay_tick
replay_tick-table strategies t r r' e =
    let (r1, f, g) = >>=-eq-some (apply_event t.event t (consumed r)) _ e in
    let (d, _, k) = >>=-eq-some (tick_all strategies _ t r1.desk) _ g in
    (r1, f, ap (λ (x : Replay). x.ext_to_eng) (sym (some-eq k)))

apply_add-table :
    (t : Tick) (r r1 : Replay)
    → 1 ≤ t.ext_id
    → apply_add t r ≡ some r1
    → (eng : ℕ) × (r1.ext_to_eng ≡ update t.ext_id (some eng) r.ext_to_eng)
unfolding apply_add
apply_add-table t r r1 h e =
    let (placed, _, g) =
      >>=-eq-some (Engine.place_limit (side_of_byte t.side) t.price t.qty r.desk.engine) _ e in
    (
      placed.0,
      ap (λ (x : Replay). x.ext_to_eng) (sym (some-eq g))
          ∙ if-false (t.ext_id == 0) _ _ (ground (arith, h)),
    )

apply_cancel-table :
    (t : Tick) (r : Replay) (id : ℕ)
    → r.ext_to_eng t.ext_id ≡ some id
    → (apply_cancel t r).ext_to_eng ≡ update t.ext_id none r.ext_to_eng
unfolding apply_cancel
apply_cancel-table t r id e = rw (e, apply_cancel) refl

IsLinked-subst :
    (next : ℕ) (open_ids : List ℕ) (f g : ℕ → Option ℕ)
    → f ≡ g
    → IsLinked next open_ids g
    → IsLinked next open_ids f
IsLinked-subst next open_ids f g e l = subst (IsLinked next open_ids) (sym e) l

closed-first :
    (id : ℕ) (open_ids rest : List ℕ) → Permᴰ open_ids (id ∷ rest) → 0 < count id open_ids
closed-first id open_ids rest p =
    let self : (id == id) ≡ true = ground arith in
    let same : count id open_ids ≡ 1 + count id rest =
      count-Perm id open_ids (id ∷ rest) p ∙ rw self refl in
    omega (arith, same)

module _ (strategies : List (BookTop → Tick → Desk → Option Desk)) where
  linked-Finds :
      (now next : ℕ) (open_ids : List ℕ) (ts : List Tick) (r : Replay)
      → IsOrderly now next open_ids ts
      → IsLinked next open_ids r.ext_to_eng
      → Finds strategies ts r
  unfolding apply_event apply_trade
  linked-Finds now next open_ids _ r ends l = tt
  linked-Finds now next open_ids _ r (opens t ts e _ new _ o) l = (
    λ c. cc,
    λ r' k.
        let (r1, f, same) = replay_tick-table strategies t r r' k in
        let f' : apply_add t (consumed r) ≡ some r1 =
          ap (λ x. apply_event x t (consumed r)) (sym e) ∙ f in
        let (eng, g) = apply_add-table t (consumed r) r1 (omega (arith, l.started, new)) f' in
        linked-Finds t.ts_ns (t.ext_id + 1) (t.ext_id ∷ open_ids) ts r' o (
          IsLinked-subst (t.ext_id + 1) (t.ext_id ∷ open_ids) _ _ (same ∙ g)
            (opens-IsLinked next t.ext_id eng open_ids r.ext_to_eng new l)),
  )
  linked-Finds now next open_ids _ r (closes t ts rest e _ p o) l =
      let (id, found) = l.known t.ext_id (closed-first t.ext_id open_ids rest p) in
      (
        λ c. (id, found),
        λ r' k.
            let (r1, f, same) = replay_tick-table strategies t r r' k in
            let f' : some (apply_cancel t (consumed r)) ≡ some r1 =
              ap (λ x. apply_event x t (consumed r)) (sym e) ∙ f in
            linked-Finds t.ts_ns next rest ts r' o (
              IsLinked-subst next rest _ _
                (same
                  ∙ ap (λ (x : Replay). x.ext_to_eng) (sym (some-eq f'))
                  ∙ apply_cancel-table t (consumed r) id found)
                (closes-IsLinked next t.ext_id open_ids rest r.ext_to_eng p l)),
      )
  linked-Finds now next open_ids _ r (prints t ts e _ _ o) l = (
    λ c. cc,
    λ r' k.
        let (r1, f, same) = replay_tick-table strategies t r r' k in
        let f' : some (apply_trade t (consumed r)) ≡ some r1 =
          ap (λ x. apply_event x t (consumed r)) (sym e) ∙ f in
        linked-Finds t.ts_ns next open_ids ts r' o (
          IsLinked-subst next open_ids _ _
            (same ∙ ap (λ (x : Replay). x.ext_to_eng) (sym (some-eq f'))) l),
  )

  -- In the replay of an orderly stream, whatever the strategies do and whatever the table holds at the
  -- start, every cancel names an order that the table knows.
  pub orderly-Finds : (ts : List Tick) (r : Replay) → IsOrderly 0 1 [] ts → Finds strategies ts r
  orderly-Finds ts r o = linked-Finds 0 1 [] ts r o (record {
    started = omega arith;
    once = λ x. omega arith;
    used = λ x k. absurd (omega (arith, k));
    known = λ x k. absurd (omega (arith, k));
  })
