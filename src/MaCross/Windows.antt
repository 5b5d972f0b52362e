-- ===== src/MaCross/Windows.antt =====
-- The windows of mvp/strategies/ma_cross.cpp hold the newest prices, and the sums are theirs.
use low_latency_hft_matching.Base.{
  ℕ, zero, suc, ◌-◌, ◌≡◌, refl, ap, ap₂, sym, ◌∙◌, subst, append-nil, append_assoc, ℤ, pos, ◌+ℤ◌,
  int_laws, List, [], ◌∷◌, ◌++◌, length, length-append, length-drop, drop, drop_more, ltb,
  Bool-cases, inl, inr, arith,
}
use low_latency_hft_matching.Book.Types.{Price}
use low_latency_hft_matching.MaCross.{
  MaCrossConfig, MaCross, new_ma_cross, pop_oldest, roll, push_price,
}

abbrev pub newest : ℕ → List Price → List Price
newest w ps = drop (length ps - w) ps

newest_nil : (w : ℕ) → [] ≡ newest w []
newest_nil w = nil_dropped (0 - w)
  where
    nil_dropped : (k : ℕ) → [] ≡ drop {A = Price} k []
    nil_dropped zero = refl
    nil_dropped (suc k) = refl

abbrev pub total_price : List Price → ℤ
total_price [] = pos 0
total_price (p ∷ ps) = p +ℤ total_price ps

total_price-append :
    (ps : List Price) (p : Price) → total_price (ps ++ p ∷ []) ≡ total_price ps +ℤ p
total_price-append [] p = omega int_laws
total_price-append (q ∷ ps) p = rw (total_price-append ps p) (omega int_laws)

pop_oldest-drop :
    (k : ℕ) (ps : List Price)
    → pop_oldest (drop k ps, total_price (drop k ps))
      ≡ (drop (suc k) ps, total_price (drop (suc k) ps))
unfolding pop_oldest
pop_oldest-drop zero [] = refl
pop_oldest-drop zero (p ∷ ps) = ap (λ t. (ps, t)) (omega int_laws)
pop_oldest-drop (suc k) [] = refl
pop_oldest-drop (suc k) (p ∷ ps) = pop_oldest-drop k ps

abbrev with_total : List Price → List Price × ℤ
with_total ps = (ps, total_price ps)

roll_lem :
    (w : ℕ) (p : Price) (ps : List Price)
    → roll w p (with_total (newest w ps)) ≡ with_total (newest w (ps ++ p ∷ []))
unfolding roll
roll_lem w p ps =
    let k = length ps - w in
    let win = drop k ps in
    let len = length-drop k ps (omega arith) in
    let n = length-append ps (p ∷ []) in
    let grown : (win ++ p ∷ [], total_price win +ℤ p) ≡ with_total (drop k (ps ++ p ∷ [])) =
      ap₂ (λ xs t. (xs, t)) (sym (drop_more k ps (p ∷ []) (omega arith)))
        (sym (total_price-append win p)
          ∙ ap total_price (sym (drop_more k ps (p ∷ []) (omega arith)))) in
    elim (Bool-cases (ltb w (length (win ++ p ∷ [])))) [
      | inl over ↦
          let e : suc k ≡ length (ps ++ p ∷ []) - w =
            ground (arith, over, len, n, length-append win (p ∷ [])) in
          rw over (
            ap pop_oldest grown
            ∙ pop_oldest-drop k (ps ++ p ∷ [])
            ∙ ap (λ j. with_total (drop j (ps ++ p ∷ []))) e)
      | inr fits ↦
          let e : k ≡ length (ps ++ p ∷ []) - w =
            ground (arith, fits, len, n, length-append win (p ∷ [])) in
          rw fits (grown ∙ ap (λ j. with_total (drop j (ps ++ p ∷ []))) e)
    ]

abbrev pub push_all : MaCrossConfig → List Price → MaCross → MaCross
push_all cfg [] m = m
push_all cfg (p ∷ ps) m = push_all cfg ps (push_price cfg p m)

-- The windows and sums after this history of prices.
pub record IsRolled (cfg : MaCrossConfig) (history : List Price) (m : MaCross) : Type 0 where
  pub fast_win : m.fast_win ≡ newest cfg.fast_window history
  pub slow_win : m.slow_win ≡ newest cfg.slow_window history
  pub fast_sum : m.fast_sum ≡ total_price m.fast_win
  pub slow_sum : m.slow_sum ≡ total_price m.slow_win

pub push_price-IsRolled :
    (cfg : MaCrossConfig) (p : Price) (history : List Price) (m : MaCross)
    → IsRolled cfg history m
    → IsRolled cfg (history ++ p ∷ []) (push_price cfg p m)
unfolding push_price
push_price-IsRolled cfg p history m r =
    let fast =
      ap (roll cfg.fast_window p)
        (ap₂ (λ xs t. (xs, t)) r.fast_win (r.fast_sum ∙ ap total_price r.fast_win))
      ∙ roll_lem cfg.fast_window p history in
    let slow =
      ap (roll cfg.slow_window p)
        (ap₂ (λ xs t. (xs, t)) r.slow_win (r.slow_sum ∙ ap total_price r.slow_win))
      ∙ roll_lem cfg.slow_window p history in
    record {
      fast_win = ap (λ q. q.0) fast;
      slow_win = ap (λ q. q.0) slow;
      fast_sum = ap (λ q. q.1) fast ∙ sym (ap (λ q. total_price q.0) fast);
      slow_sum = ap (λ q. q.1) slow ∙ sym (ap (λ q. total_price q.0) slow);
    }

push_all-IsRolled :
    (cfg : MaCrossConfig) (ps history : List Price) (m : MaCross)
    → IsRolled cfg history m
    → IsRolled cfg (history ++ ps) (push_all cfg ps m)
push_all-IsRolled cfg [] history m r = subst (λ h. IsRolled cfg h m) (sym (append-nil history)) r
push_all-IsRolled cfg (p ∷ ps) history m r =
    subst (λ h. IsRolled cfg h (push_all cfg ps (push_price cfg p m)))
      (append_assoc history (p ∷ []) ps)
      (push_all-IsRolled cfg ps (history ++ p ∷ []) (push_price cfg p m)
        (push_price-IsRolled cfg p history m r))

-- After any sequence of prices each window holds the newest of them, as many as its size allows, in
-- order, and the running sum of each window is the sum of the prices in it.
pub push_all-windows :
    (cfg : MaCrossConfig) (ps : List Price) → IsRolled cfg ps (push_all cfg ps new_ma_cross)
push_all-windows cfg ps = push_all-IsRolled cfg ps [] new_ma_cross (record {
  fast_win = newest_nil cfg.fast_window;
  slow_win = newest_nil cfg.slow_window;
  fast_sum = refl;
  slow_sum = refl;
})
