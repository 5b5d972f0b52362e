-- ===== src/Gateway/Delivery.antt =====
-- What `send_raw` of mvp/src/fix/gateway.cpp delivers.
use low_latency_hft_matching.Base.{
  ℕ, zero, suc, ◌+◌, ◌≤◌, ◌<◌, ◌≡◌, refl, sym, ◌∙◌, ap, pos_part, is_pos, [], ◌∷◌, ◌++◌, true,
  false, ◌⊎◌, inl, inr, length, take, drop, length-drop-lt, take_append-drop, append_assoc,
  append-nil, arith, Bool-cases,
}
use low_latency_hft_matching.Fix.Numbers.{Bytes}
use low_latency_hft_matching.Platform.{Platform, NeverFails}
use low_latency_hft_matching.Gateway.{Session}
use low_latency_hft_matching.Gateway.Sending.{send_from, send_raw}

-- What sending does not touch.
pub record Keeps (s t : Session) : Type 0 where
  pub sender_comp : t.sender_comp ≡ s.sender_comp
  pub out_seq : t.out_seq ≡ s.out_seq
  pub in_seq : t.in_seq ≡ s.in_seq
  pub logged_on : t.logged_on ≡ s.logged_on
  pub rx_buf : t.rx_buf ≡ s.rx_buf

-- These bytes are behind what the session's socket had taken.
abbrev pub Delivers : Bytes → Session → Session → Type 0
Delivers p s t = (t.wire ≡ s.wire ++ p) × (t.running ≡ s.running)

-- A part of the bytes was taken and the session is to stop.
abbrev pub Stops : Bytes → Session → Session → Type 0
Stops p s t =
    (taken : Bytes) × (rest : Bytes) × (p ≡ taken ++ rest)
    × (t.wire ≡ s.wire ++ taken)
    × (t.running ≡ false)

module _ (P : Platform) where
  Stops-more :
      (n : ℕ) (p : Bytes) (s t u : Session)
      → t.wire ≡ s.wire ++ take n p
      → Stops (drop n p) t u
      → Stops p s u
  Stops-more n p s t u e (taken, rest, split, w, stop) = (
    take n p ++ taken,
    rest,
    sym (take_append-drop n p)
        ∙ ap (λ x. take n p ++ x) split
        ∙ sym (append_assoc (take n p) taken rest),
    w ∙ ap (λ x. x ++ taken) e ∙ append_assoc s.wire (take n p) taken,
    stop,
  )

  Delivers-more :
      (n : ℕ) (p : Bytes) (s t u : Session)
      → t.wire ≡ s.wire ++ take n p
      → t.running ≡ s.running
      → Delivers (drop n p) t u
      → Delivers p s u
  Delivers-more n p s t u e r (w, k) = (
    w
        ∙ ap (λ x. x ++ drop n p) e
        ∙ append_assoc s.wire (take n p) (drop n p)
        ∙ ap (λ x. s.wire ++ x) (take_append-drop n p),
    k ∙ r,
  )

  pub send_from-Delivers :
      (fuel : ℕ) (p : Bytes) (s : Session)
      → length p ≤ fuel
      → Delivers p s (send_from P fuel p s) ⊎ Stops p s (send_from P fuel p s)
  unfolding send_from
  send_from-Delivers zero [] s h = inl (sym (append-nil s.wire), refl)
  send_from-Delivers zero (c ∷ cs) s h = absurd (omega (arith, h))
  send_from-Delivers (suc fuel) [] s h = inl (sym (append-nil s.wire), refl)
  send_from-Delivers (suc fuel) (c ∷ cs) s h =
      let n = pos_part (P.send s.sends (length (c ∷ cs))) in
      elim (Bool-cases (is_pos (P.send s.sends (length (c ∷ cs))))) [
        | inr fails ↦ rw fails (inr ([], c ∷ cs, refl, sym (append-nil s.wire), refl))
        | inl goes ↦
            let next = record s { sends = s.sends + 1; wire = s.wire ++ take n (c ∷ cs) } in
            let less : length (drop n (c ∷ cs)) ≤ fuel =
              omega (arith, length-drop-lt n c cs (ground arith)) in
            let end = send_from P fuel (drop n (c ∷ cs)) next in
            rw goes (elim (send_from-Delivers fuel (drop n (c ∷ cs)) next less) [
              | inl d ↦ inl (Delivers-more n (c ∷ cs) s next end refl refl d)
              | inr d ↦ inr (Stops-more n (c ∷ cs) s next end refl d)
            ])
      ]

  -- `send_raw` ends, and either the socket took all bytes, in order and behind what it had taken, and
  -- the session runs on or not as before, or the socket took a first part of them and the session is
  -- to stop.
  pub send_raw-Delivers :
      (bytes : Bytes) (s : Session)
      → Delivers bytes s (send_raw P bytes s) ⊎ Stops bytes s (send_raw P bytes s)
  unfolding send_raw
  send_raw-Delivers bytes s = send_from-Delivers (length bytes) bytes s (omega arith)

  send_from-Keeps : (fuel : ℕ) (p : Bytes) (s : Session) → Keeps s (send_from P fuel p s)
  unfolding send_from
  send_from-Keeps zero p s = record {
    sender_comp = refl;
    out_seq = refl;
    in_seq = refl;
    logged_on = refl;
    rx_buf = refl;
  }
  send_from-Keeps (suc fuel) [] s = record {
    sender_comp = refl;
    out_seq = refl;
    in_seq = refl;
    logged_on = refl;
    rx_buf = refl;
  }
  send_from-Keeps (suc fuel) (c ∷ cs) s =
      let n = pos_part (P.send s.sends (length (c ∷ cs))) in
      let next = record s { sends = s.sends + 1; wire = s.wire ++ take n (c ∷ cs) } in
      let ih = send_from-Keeps fuel (drop n (c ∷ cs)) next in ground (arith, ih)

  pub send_raw-Keeps : (bytes : Bytes) (s : Session) → Keeps s (send_raw P bytes s)
  unfolding send_raw
  send_raw-Keeps bytes s = send_from-Keeps (length bytes) bytes s

  -- Sending does not look at the bytes received.
  send_from-buffered :
      (fuel : ℕ) (p r : Bytes) (s : Session)
      → send_from P fuel p (record s { rx_buf = r }) ≡ record (send_from P fuel p s) { rx_buf = r }
  unfolding send_from
  send_from-buffered zero p r s = refl
  send_from-buffered (suc fuel) [] r s = refl
  send_from-buffered (suc fuel) (c ∷ cs) r s =
      let n = pos_part (P.send s.sends (length (c ∷ cs))) in
      let next = record s { sends = s.sends + 1; wire = s.wire ++ take n (c ∷ cs) } in
      elim (Bool-cases (is_pos (P.send s.sends (length (c ∷ cs))))) [
        | inr fails ↦ rw fails refl
        | inl goes ↦ rw goes (send_from-buffered fuel (drop n (c ∷ cs)) r next)
      ]

  pub send_raw-buffered :
      (bytes r : Bytes) (s : Session)
      → send_raw P bytes (record s { rx_buf = r }) ≡ record (send_raw P bytes s) { rx_buf = r }
  unfolding send_raw
  send_raw-buffered bytes r s = send_from-buffered (length bytes) bytes r s

  -- A socket that never fails takes all bytes.
  send_from-all :
      NeverFails P
      → (fuel : ℕ) (p : Bytes) (s : Session) → length p ≤ fuel
      → (send_from P fuel p s).wire ≡ s.wire ++ p
  unfolding send_from
  send_from-all f zero [] s h = sym (append-nil s.wire)
  send_from-all f zero (c ∷ cs) s h = absurd (omega (arith, h))
  send_from-all f (suc fuel) [] s h = sym (append-nil s.wire)
  send_from-all f (suc fuel) (c ∷ cs) s h =
      let n = pos_part (P.send s.sends (length (c ∷ cs))) in
      let next = record s { sends = s.sends + 1; wire = s.wire ++ take n (c ∷ cs) } in
      let taken = f.some_taken s.sends (length (c ∷ cs)) (omega arith) in
      let result = f.returned s.sends (length (c ∷ cs)) in
      let goes : is_pos (P.send s.sends (length (c ∷ cs))) ≡ true = ground (arith, result, taken) in
      let positive : 0 < n = omega (arith, ap pos_part result, taken) in
      let less : length (drop n (c ∷ cs)) ≤ fuel = omega (arith, length-drop-lt n c cs positive) in
      rw goes (
        send_from-all f fuel (drop n (c ∷ cs)) next less
        ∙ append_assoc s.wire (take n (c ∷ cs)) (drop n (c ∷ cs))
        ∙ ap (λ x. s.wire ++ x) (take_append-drop n (c ∷ cs)))

  pub send_raw-all :
      NeverFails P → (bytes : Bytes) (s : Session) → (send_raw P bytes s).wire ≡ s.wire ++ bytes
  unfolding send_raw
  send_raw-all f bytes s = send_from-all f (length bytes) bytes s (omega arith)
