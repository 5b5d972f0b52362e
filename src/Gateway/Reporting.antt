-- ===== src/Gateway/Reporting.antt =====
-- The execution reports that mvp/src/fix/gateway.cpp sends for an accepted order.
use low_latency_hft_matching.Base.{
  ℕ, ◌≡◌, ◌≢◌, ◌↔◌, refl, sym, ap, ◌∙◌, ℤ, pos, ◌+ℤ◌, ◌-ℤ◌, ◌≤ℤ◌, is_pos, IsPos, eqb_ℤ, int_laws,
  eq_of_parts, pos_part, neg_part, List, [], ◌∷◌, ◌++◌, true, false, map, some, arith, append-nil,
  Bool-cases, inl, inr, subst,
}
use mathlib.Core.List.{map-append}
use low_latency_hft_matching.Book.Types.{Trade, Quantity}
use low_latency_hft_matching.Book.Valid.{IsValid, outcome}
use low_latency_hft_matching.Book.Priority.{All, All-append}
use low_latency_hft_matching.Book.Quantities.{traded, fill_conserves}
use low_latency_hft_matching.Book.Leftover.{outcome-IsSound}
use low_latency_hft_matching.Platform.{Platform}
use low_latency_hft_matching.Gateway.{Gateway, Session}
use low_latency_hft_matching.Gateway.Sending.{ExecReport}
use low_latency_hft_matching.Gateway.Orders.{
  NewOrder, order_side, ticks_of, plain_report, Fill, fills, fill_report, filled_from, reports,
  send_reports, publish_quote, quote_of, accept_order, zero_d, round, notional_after,
}
use low_latency_hft_matching.Gateway.Serving.{placed, place_limit-placed}

-- '2', of an order that is filled.
abbrev pub filled_status : ℕ
filled_status = 50

filled_from-traded : (q : Quantity) (ts : List Trade) → filled_from q ts ≡ q +ℤ traded ts
unfolding filled_from
filled_from-traded q [] = omega int_laws
filled_from-traded q (t ∷ ts) = filled_from-traded (q +ℤ t.qty) ts ∙ omega int_laws

add_cum : (c q r : ℤ) → c +ℤ q +ℤ r ≡ c +ℤ (q +ℤ r)
add_cum c q r = omega int_laws

take_away : (q l : ℤ) → q -ℤ (q -ℤ l) ≡ l
take_away q l = omega int_laws

zero_left : (a : ℤ) → is_pos a ≡ false → pos 0 ≤ℤ a → a ≡ pos 0
zero_left a h l = eq_of_parts a (pos 0) (ground (arith, h, l))

module _ (P : Platform) where
  -- The rounds of the loop are some that are not final and a last one, which is final exactly if
  -- nothing is left then.
  abbrev Rounds : Quantity → Quantity → List (Fill P) → Type 0
  Rounds qty cum fs =
      (front : List (Fill P)) × (end : Fill P) × (fs ≡ front ++ end ∷ [])
      × All (λ (f : Fill P). f.final_fill ≡ false) front
      × (end.lv ≡ qty -ℤ cum)
      × (end.final_fill ≡ eqb_ℤ end.lv (pos 0))

  fills-Rounds :
      (qty cum : Quantity) (notional : P.Double) (t : Trade) (ts : List Trade)
      → Rounds qty (cum +ℤ traded (t ∷ ts)) (fills P qty cum notional (t ∷ ts))
  unfolding fills
  fills-Rounds qty cum notional t [] =
      ([], round P qty cum notional t true, refl, tt, omega int_laws, refl)
  fills-Rounds qty cum notional t (u ∷ ts) =
      let next = notional_after P notional t in
      let (front, end, split, early, left, last) = fills-Rounds qty (cum +ℤ t.qty) next u ts in
      let r = round P qty cum notional t false in
      (
        r ∷ front,
        end,
        ap (λ fs. r ∷ fs) split,
        (refl, early),
        left ∙ ap (λ x. qty -ℤ x) (add_cum cum t.qty (traded (u ∷ ts))),
        last,
      )

  -- What the reports of an accepted order say at the end.
  abbrev pub Closes : Quantity → List (ExecReport P.Double) → Type 0
  Closes left rs =
      (front : List (ExecReport P.Double)) × (end : ExecReport P.Double) × (rs ≡ front ++ end ∷ [])
      × All (λ (r : ExecReport P.Double). r.ord_status ≢ filled_status) front
      × (end.leaves_qty ≡ P.of_int left)
      × ((end.ord_status ≡ filled_status) ↔ (left ≡ pos 0))

  early_status :
      (o : NewOrder P) (id : ℕ) (qty : Quantity) (f : Fill P)
      → f.final_fill ≡ false
      → (fill_report P o id qty f).ord_status ≢ filled_status
  unfolding fill_report
  early_status o id qty f e h = ground (arith, e, h)

  early_statuses :
      (o : NewOrder P) (id : ℕ) (qty : Quantity) (fs : List (Fill P))
      → All (λ (f : Fill P). f.final_fill ≡ false) fs
      → All
          (λ (r : ExecReport P.Double). r.ord_status ≢ filled_status)
          (map (fill_report P o id qty) fs)
  early_statuses o id qty [] h = tt
  early_statuses o id qty (f ∷ fs) h = (early_status o id qty f h.0, early_statuses o id qty fs h.1)

  -- The reports of the fills alone, nothing being left.
  Closes-filled :
      (o : NewOrder P) (id : ℕ) (qty left : Quantity) (fs : List (Fill P))
      → Rounds qty (qty -ℤ left) fs
      → left ≡ pos 0
      → Closes left (map (fill_report P o id qty) fs ++ [])
  unfolding fill_report
  Closes-filled o id qty left fs (front, end, split, early, lv, final) none_left =
      let fr = fill_report P o id qty in
      let same : end.lv ≡ left = lv ∙ take_away qty left in
      let last : end.final_fill ≡ true = final ∙ ap (λ x. eqb_ℤ x (pos 0)) (same ∙ none_left) in
      (
        map fr front,
        fr end,
        append-nil (map fr fs) ∙ ap (map fr) split ∙ map-append fr front (end ∷ []),
        early_statuses o id qty front early,
        ap P.of_int same,
        ((λ _. none_left), (λ _. ground (arith, last))),
      )

  -- The reports of the fills and one of the rest.
  Closes-rested :
      (o : NewOrder P) (id : ℕ) (qty left : Quantity) (fs : List (Fill P))
      (rest : ExecReport P.Double)
      → Rounds qty (qty -ℤ left) fs
      → IsPos left
      → rest.ord_status ≢ filled_status
      → rest.leaves_qty ≡ P.of_int left
      → Closes left (map (fill_report P o id qty) fs ++ rest ∷ [])
  Closes-rested o id qty left fs rest (front, end, split, early, lv, final) some_left k e =
      let same : end.lv ≡ left = lv ∙ take_away qty left in
      let more : eqb_ℤ left (pos 0) ≡ false = ground (arith, some_left) in
      let last : end.final_fill ≡ false = final ∙ ap (λ x. eqb_ℤ x (pos 0)) same ∙ more in
      (
        map (fill_report P o id qty) fs,
        rest,
        refl,
        early_statuses o id qty fs (
            subst (All (λ (f : Fill P). f.final_fill ≡ false)) (sym split)
              (All-append _ front (end ∷ []) early (last, tt))),
        e,
        (
          (λ h. absurd (k h)),
          (λ z. absurd (omega (arith, ap pos_part z, ap neg_part z, some_left))),
        ),
      )

  reports-Closes :
      (o : NewOrder P) (id : ℕ) (qty left : Quantity) (ts : List Trade)
      → IsPos qty
      → pos 0 ≤ℤ left
      → traded ts +ℤ left ≡ qty
      → Closes left (reports P o id qty ts)
  unfolding reports plain_report
  reports-Closes o id qty left [] h l e = (
    [],
    plain_report P o id 48 48 (P.of_int qty) (zero_d P) (P.of_int (qty -ℤ pos 0)),
    refl,
    tt,
    ap P.of_int (omega (int_laws, ap pos_part e, ap neg_part e)),
    (
      (λ k. absurd (omega (arith, k))),
      (λ z. absurd (omega (int_laws, ap pos_part e, ap neg_part e, ap pos_part z, h))),
    ),
  )
  reports-Closes o id qty left (t ∷ ts) h l e =
      let filled = filled_from (pos 0) (t ∷ ts) in
      let sum = filled_from-traded (pos 0) (t ∷ ts) in
      let leaves : qty -ℤ filled ≡ left =
        omega (int_laws, ap pos_part e, ap neg_part e, ap pos_part sum, ap neg_part sum) in
      let done : pos 0 +ℤ traded (t ∷ ts) ≡ qty -ℤ left =
        omega (int_laws, ap pos_part e, ap neg_part e) in
      let rounds =
        subst (λ x. Rounds qty x (fills P qty (pos 0) (zero_d P) (t ∷ ts))) done
          (fills-Rounds qty (pos 0) (zero_d P) t ts) in
      elim (Bool-cases (is_pos (qty -ℤ filled))) [
        | inl more ↦ rw more (
            Closes-rested o id qty left (fills P qty (pos 0) (zero_d P) (t ∷ ts)) _ rounds
              (subst IsPos leaves (ground (arith, more))) (λ k. omega (arith, k))
              (ap P.of_int leaves))
        | inr none_left ↦ rw none_left (
            Closes-filled o id qty left (fills P qty (pos 0) (zero_d P) (t ∷ ts)) rounds
              (zero_left left (ap (λ x. is_pos x) (sym leaves) ∙ none_left) l))
      ]

  -- On a valid book an accepted order of a positive quantity is placed in the engine, and reported by
  -- reports of which the last, and no other, has the status of a filled order, and that exactly if
  -- price-time priority leaves nothing of the order; what it leaves is the last report's quantity.
  pub accept_order-Closes :
      (o : NewOrder P) (g : Gateway) (s : Session)
      → IsValid g.engine.book
      → IsPos (P.to_int o.order_qty)
      → let qty = P.to_int o.order_qty in
        let e = placed (order_side P o) (ticks_of P o) qty g.engine in
        (rs : List (ExecReport P.Double)) × (accept_order P o (g, s)
          ≡ some (
              let sent = send_reports P rs (record g { engine = e }, s) in
              (publish_quote P o.symbol (quote_of e.book) sent.0, sent.1)))
        × Closes (outcome (order_side P o) (ticks_of P o) qty g.engine.book).left rs
  unfolding accept_order
  accept_order-Closes o g s v h =
      let qty = P.to_int o.order_qty in
      let side = order_side P o in
      let price = ticks_of P o in
      let out = outcome side price qty g.engine.book in
      let (_, l) = outcome-IsSound side price qty g.engine.book v (omega (arith, h)) in
      (
        reports P o g.engine.book.next_id qty out.trades,
        rw (place_limit-placed side price qty g.engine v) refl,
        reports-Closes o g.engine.book.next_id qty out.left out.trades h l
            (fill_conserves g.engine.book.next_id qty _).0,
      )
