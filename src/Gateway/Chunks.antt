-- ===== src/Gateway/Chunks.antt =====
-- How the bytes of a session of mvp/src/fix/gateway.cpp are cut into chunks does not matter.
use low_latency_hft_matching.Base.{
  ℕ, zero, suc, ◌+◌, ◌<◌, ◌≡◌, sym, ap, ◌∙◌, ◌++◌, true, some, arith, ◌>>=◌, drop, length,
  drop_more, append_assoc, some-eq, >>=-eq-some, subst,
}
use low_latency_hft_matching.Fix.Numbers.{Bytes}
use low_latency_hft_matching.Fix.Framing.{ok, split_frame}
use low_latency_hft_matching.Fix.Streaming.{is_decided, split_frame-more}
use low_latency_hft_matching.Fix.Consumed.{consumed-Within}
use low_latency_hft_matching.Platform.{Platform}
use low_latency_hft_matching.Gateway.{Gateway, Session}
use low_latency_hft_matching.Gateway.Sessions.{
  end_session, handle_message, drain, receive, malformed_frame, parse_failed,
}
use low_latency_hft_matching.Gateway.Buffers.{with_buffer, map_buffer, handle_message-buffered}
use low_latency_hft_matching.Gateway.Draining.{
  head_of, waits, broken, garbled, message, counted, drain-waits, drain-broken, drain-garbled,
  drain-message, drain_enough, shorter,
}

module _ (P : Platform) where
  stopped :
      (text : Bytes) (c c' : Gateway × Session)
      → end_session P text c ≡ c'
      → c'.1.running ≡ true
      → ⊥
  unfolding end_session
  stopped text c c' e r = cc (ap (λ (x : Gateway × Session). x.1.running) e)

  decided_more :
      (buf more frame : Bytes) (n : ℕ)
      → split_frame buf ≡ ok frame n
      → split_frame (buf ++ more) ≡ ok frame n
  decided_more buf more frame n e = split_frame-more more buf (ap is_decided e) ∙ e

  -- Bytes that are there from the start, or come when the loop has run.
  drain_more :
      (more : Bytes) (f f1 f2 : ℕ) (c c' : Gateway × Session)
      → length c.1.rx_buf < f
      → length (c.1.rx_buf ++ more) < f1
      → length (c'.1.rx_buf ++ more) < f2
      → drain P f c ≡ some c'
      → c'.1.running ≡ true
      → drain P f1 (with_buffer (c.1.rx_buf ++ more) c)
        ≡ drain P f2 (with_buffer (c'.1.rx_buf ++ more) c')
  drain_more more zero f1 f2 c c' h h1 h2 d r = absurd (omega (arith, h))
  drain_more more (suc f) zero f2 c c' h h1 h2 d r = absurd (omega (arith, h1))
  drain_more more (suc f) (suc f1) f2 c c' h h1 h2 d r = elim (head_of c.1.rx_buf) [
    | waits e ↦
        let same : c ≡ c' = some-eq (sym (drain-waits P f c e) ∙ d) in
        let long : length (c.1.rx_buf ++ more) < f2 =
          subst (λ (x : Gateway × Session). length (x.1.rx_buf ++ more) < f2) (sym same) h2 in
        drain_enough P (suc f1) f2 (with_buffer (c.1.rx_buf ++ more) c) h1 long
        ∙ ap (λ (x : Gateway × Session). drain P f2 (with_buffer (x.1.rx_buf ++ more) x)) same
    | broken e ↦ absurd (stopped malformed_frame c c' (some-eq (sym (drain-broken P f c e) ∙ d)) r)
    | garbled frame n m e p ↦
        absurd (stopped parse_failed c c' (some-eq (sym (drain-garbled P f c frame n m e p) ∙ d)) r)
    | message frame n m e p ↦
        let buf = c.1.rx_buf in
        let (c1, done, d1) =
          >>=-eq-some (handle_message P m (counted c)) _
            (sym (drain-message P f c frame n m e p) ∙ d) in
        let late = with_buffer (buf ++ more) c in
        let done_late =
          handle_message-buffered P m (buf ++ more) (counted c)
          ∙ ap (map_buffer (buf ++ more)) done in
        let (some_bytes, within) = consumed-Within buf frame n e in
        let behind = drop_more n buf more within in
        let fits = shorter P f1 n (buf ++ more) frame (decided_more buf more frame n e) h1 in
        drain-message P f1 late frame n m (decided_more buf more frame n e) p
        ∙ ap (λ o. o >>= λ x. drain P f1 (with_buffer (drop n (buf ++ more)) x)) done_late
        ∙ ap (λ b. drain P f1 (with_buffer b c1)) behind
        ∙ drain_more more f f1 f2 (with_buffer (drop n buf) c1) c' (shorter P f n buf frame e h)
            (subst (λ (b : Bytes). length b < f1) behind fits) h2 d1 r
  ]

  -- Two chunks that arrive one behind the other, the session still running in between, have the
  -- effect of one: the same messages are handled in the same order, with the same replies.
  pub receive-append :
      (a b : Bytes) (c c' : Gateway × Session)
      → receive P a c ≡ some c'
      → c'.1.running ≡ true
      → receive P b c' ≡ receive P (a ++ b) c
  unfolding receive
  receive-append a b c c' d r =
      let buf = c.1.rx_buf ++ a in
      let joined = append_assoc c.1.rx_buf a b in
      sym (
        ap (λ x. drain P (length x + 1) (with_buffer x c)) (sym joined)
        ∙ drain_more b (length buf + 1) (length (buf ++ b) + 1) (length (c'.1.rx_buf ++ b) + 1)
            (with_buffer buf c) c' (omega arith) (omega arith) (omega arith) d r)
