-- ===== src/MaCross/Orders.antt =====
-- The orders of mvp/strategies/ma_cross.cpp: each, if it fills, takes the position to its target.
use low_latency_hft_matching.Base.{
  ◌⊎◌, ◌<ℤ◌, ◌≤◌, ap, ap₂, sym, ◌∙◌, ◌++◌, ◌∷◌, [], List, negsuc, length-drop, ◌-◌, ◌≡◌, refl,
  subst, ℤ, pos, ◌-ℤ◌, eqb_ℤ, is_pos, Bool, false, ◌||◌, some, some-eq, length, ltb, arith,
  Bool-cases, inl, inr,
}
use low_latency_hft_matching.Book.Types.{Side, buy, sell, Price, Quantity}
use low_latency_hft_matching.Portfolio.{neg_ℤ}
use low_latency_hft_matching.Backtest.{Tick, BookTop}
use low_latency_hft_matching.MaCross.{
  MaCrossConfig, MaCross, push_price, fast_avg, slow_avg, sign_of, order_to_target, signal,
  is_trade, on_tick, average,
}
use low_latency_hft_matching.MaCross.Windows.{total_price, IsRolled, push_price-IsRolled}
use low_latency_hft_matching.MaCross.Crossing.{
  Reaches, up_to, down_to, mean, IsCrossed, sign_for, Takes, sign_of_cases,
}

module _ (cfg : MaCrossConfig) (top : BookTop) (position : Quantity) where
  order_to_target-Reaches :
      (sign : ℤ) (o : Side × Price × Quantity)
      → order_to_target cfg top position sign ≡ some o
      → Reaches cfg top position sign o
  unfolding order_to_target
  order_to_target-Reaches sign o =
      let target = cfg.target_position in
      elim (Bool-cases (is_pos sign)) [
        | inl up ↦ elim (Bool-cases (is_pos (target -ℤ position))) [
          | inl need ↦
              rw (up, need)
                (λ e.
                  subst (Reaches cfg top position sign) (some-eq e)
                    (ground (arith, need), up_to target position, refl, up))
          | inr there ↦ rw (up, there) (λ e. cc)
        ]
        | inr down ↦ elim (Bool-cases (is_pos (position -ℤ neg_ℤ target))) [
          | inl need ↦
              rw (down, need)
                (λ e.
                  subst (Reaches cfg top position sign) (some-eq e)
                    (ground (arith, need), down_to (neg_ℤ target) position, refl, down))
          | inr there ↦ rw (down, there) (λ e. cc)
        ]
      ]

  -- What holds of an order when the windows have seen these prices.
  abbrev pub IsSound : List Price → ℤ → Side × Price × Quantity → Type 0
  IsSound ps last (side, price, qty) =
      (cfg.slow_window ≤ length ps)
      × IsCrossed cfg side last ps
      × Reaches cfg top position (sign_for side) (side, price, qty)
      × (eqb_ℤ top.bid_px (pos 0) ≡ false)
      × (eqb_ℤ top.ask_px (pos 0) ≡ false)

  or_false : (a b : Bool) → (a || b) ≡ false → (a ≡ false) × (b ≡ false)
  or_false a b h = ground arith

  other_sign : (sign last : ℤ) → eqb_ℤ sign last ≡ false → ¬ (last ≡ sign)
  other_sign sign last h = λ e. ground (arith, h, e)

  -- What the averages are.
  pub averages :
      (ps : List Price) (m : MaCross)
      → IsRolled cfg ps m
      → (fast_avg m ≡ mean cfg.fast_window ps) × (slow_avg m ≡ mean cfg.slow_window ps)
  unfolding average
  averages ps m r = (
    ap₂ average r.fast_win (r.fast_sum ∙ ap total_price r.fast_win),
    ap₂ average r.slow_win (r.slow_sum ∙ ap total_price r.slow_win),
  )

  warm_enough :
      (ps : List Price) (m : MaCross)
      → IsRolled cfg ps m
      → ltb (length m.slow_win) cfg.slow_window ≡ false
      → cfg.slow_window ≤ length ps
  warm_enough ps m r warm = ground (
    arith,
    warm,
    ap length r.slow_win,
    length-drop (length ps - cfg.slow_window) ps (omega arith),
  )

  -- The side of an order is that of the sign.
  order_of_sign :
      (ps : List Price) (last sign : ℤ) (side : Side) (price : Price) (qty : Quantity)
      → ((sign ≡ pos 1) × (mean cfg.slow_window ps <ℤ mean cfg.fast_window ps))
        ⊎ ((sign ≡ negsuc 0) × (mean cfg.fast_window ps <ℤ mean cfg.slow_window ps))
      → ¬ (last ≡ sign)
      → Reaches cfg top position sign (side, price, qty)
      → (sign ≡ sign_for side)
        × IsCrossed cfg side last ps
        × Reaches cfg top position (sign_for side) (side, price, qty)
  order_of_sign ps last sign buy price qty (inl (up, over)) new (a, b, c, d) =
      (up, (over, subst (λ x. ¬ (last ≡ x)) up new), (a, b, c, refl))
  order_of_sign ps last sign sell price qty (inr (down, under)) new (a, b, c, d) =
      (down, (under, subst (λ x. ¬ (last ≡ x)) down new), (a, b, c, refl))
  order_of_sign ps last sign buy price qty (inr (down, under)) new (a, b, c, d) =
      absurd (ground (arith, down, d))
  order_of_sign ps last sign sell price qty (inl (up, over)) new (a, b, c, d) =
      absurd (ground (arith, up, d))

  -- The sign is that of the means.
  sign_of_means :
      (ps : List Price) (m : MaCross)
      → IsRolled cfg ps m
      → let sign = sign_of (fast_avg m) (slow_avg m) in
        eqb_ℤ sign (pos 0) ≡ false
        → ((sign ≡ pos 1) × (mean cfg.slow_window ps <ℤ mean cfg.fast_window ps))
          ⊎ ((sign ≡ negsuc 0) × (mean cfg.fast_window ps <ℤ mean cfg.slow_window ps))
  sign_of_means ps m r =
      let (f, s) = averages ps m r in
      rw (f, s) (sign_of_cases (mean cfg.fast_window ps) (mean cfg.slow_window ps))

  signal-IsSound :
      (ps : List Price) (m : MaCross) (o : Side × Price × Quantity)
      → IsRolled cfg ps m
      → (signal cfg top position m).1 ≡ some o
      → IsSound ps m.last_sign o
        × ((signal cfg top position m).0 ≡ record m { last_sign = sign_for o.0 })
  unfolding signal
  signal-IsSound ps m o r =
      let sign = sign_of (fast_avg m) (slow_avg m) in
      elim (Bool-cases (ltb (length m.slow_win) cfg.slow_window)) [
        | inl early ↦ rw early (λ e. cc)
        | inr warm ↦ elim (Bool-cases (eqb_ℤ sign (pos 0) || eqb_ℤ sign m.last_sign)) [
          | inl still ↦ rw (warm, still) (λ e. cc)
          | inr crossed ↦ elim (Bool-cases (eqb_ℤ top.bid_px (pos 0) || eqb_ℤ top.ask_px (pos 0))) [
            | inl one_sided ↦ rw (warm, crossed, one_sided) (λ e. cc)
            | inr quoted ↦
                let (b, a) = or_false _ _ quoted in
                let (z, c) = or_false _ _ crossed in
                rw (warm, crossed, quoted)
                  (λ e.
                    let (same, cross, reach) =
                      order_of_sign ps m.last_sign sign o.0 o.1 o.2 (sign_of_means ps m r z)
                        (other_sign _ _ c) (order_to_target-Reaches sign o e) in
                    (
                      (warm_enough ps m r warm, cross, reach, b, a),
                      ap (λ x. record m { last_sign = x }) same,
                    ))
          ]
        ]
      ]

  last_sign-IsRolled :
      (ps : List Price) (last : ℤ) (m : MaCross)
      → IsRolled cfg ps m
      → IsRolled cfg ps (record m { last_sign = last })
  last_sign-IsRolled ps last m r = record {
    fast_win = r.fast_win;
    slow_win = r.slow_win;
    fast_sum = r.fast_sum;
    slow_sum = r.slow_sum;
  }

  -- What holds of the tick, the state behind it and an order that it places.
  abbrev pub Places : Tick → List Price → ℤ → MaCross → Side × Price × Quantity → Type 0
  Places t history last m' o =
      (p : Price) × Takes top t p
      × IsSound (history ++ p ∷ []) last o
      × (m'.last_sign ≡ sign_for o.0)
      × IsRolled cfg (history ++ p ∷ []) m'

  pub on_tick-IsSound :
      (t : Tick) (history : List Price) (m : MaCross) (o : Side × Price × Quantity)
      → IsRolled cfg history m
      → (on_tick cfg top position t m).1 ≡ some o
      → Places t history m.last_sign (on_tick cfg top position t m).0 o
  unfolding on_tick push_price
  on_tick-IsSound t history m o r = elim (Bool-cases (is_trade t.event)) [
    | inl trade ↦ rw trade (λ e.
        let q = push_price-IsRolled cfg t.price history m r in
        let (sound, left) = signal-IsSound _ (push_price cfg t.price m) o q e in
        (
          t.price,
          inl (refl, refl),
          sound,
          ap (λ x. x.last_sign) left,
          subst (IsRolled cfg (history ++ t.price ∷ [])) (sym left) (last_sign-IsRolled _ _ _ q),
        ))
    | inr other ↦ elim (Bool-cases (eqb_ℤ top.mid (pos 0))) [
      | inr mid ↦
          rw (other, mid)
            (λ e.
              let q = push_price-IsRolled cfg top.mid history m r in
              let (sound, left) = signal-IsSound _ (push_price cfg top.mid m) o q e in
              (
                top.mid,
                inr (refl, refl, refl),
                sound,
                ap (λ x. x.last_sign) left,
                subst (IsRolled cfg (history ++ top.mid ∷ [])) (sym left)
                    (last_sign-IsRolled _ _ _ q),
              ))
      | inl nothing ↦ rw (other, nothing) (λ e. cc)
    ]
  ]
