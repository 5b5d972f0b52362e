-- ===== src/Gateway/Draining.antt =====
-- The rounds of the inner loop of `session_loop` in mvp/src/fix/gateway.cpp, and what a session keeps.
use low_latency_hft_matching.Base.{
  ℕ, zero, suc, ◌+◌, ◌<◌, ◌≡◌, refl, sym, ap, ◌∙◌, List, [], ◌∷◌, ◌++◌, Bool, true, false, some,
  arith, Option-cases, inl, inr, ◌>>=◌, drop, length, length-drop, some-eq, >>=-eq-some, if-eq,
  subst, fun_ext,
}
use low_latency_hft_matching.Fix.{Message}
use low_latency_hft_matching.Fix.Numbers.{Bytes}
use low_latency_hft_matching.Fix.Framing.{
  FrameStatus, ok, incomplete, malformed, split_frame, parse_frame,
}
use low_latency_hft_matching.Fix.Parsing.{parse_frame_total}
use low_latency_hft_matching.Fix.Consumed.{consumed-Within}
use low_latency_hft_matching.Platform.{Platform}
use low_latency_hft_matching.Gateway.{Gateway, Session, next32}
use low_latency_hft_matching.Gateway.Sessions.{
  end_session, handle_message, handle_frame, drain, receive, session_loop, malformed_frame,
  parse_failed,
}
use low_latency_hft_matching.Gateway.Buffers.{with_buffer, handle_message-rx_buf}

-- What is at the head of the receive buffer.
pub data Head (buf : Bytes) : Type 0 where
  waits : split_frame buf ≡ incomplete → Head buf
  broken : split_frame buf ≡ malformed → Head buf
  garbled :
      (frame : Bytes) (n : ℕ) (m : Message)
      → split_frame buf ≡ ok frame n
      → parse_frame frame ≡ some (false, m)
      → Head buf
  message :
      (frame : Bytes) (n : ℕ) (m : Message)
      → split_frame buf ≡ ok frame n
      → parse_frame frame ≡ some (true, m)
      → Head buf

parsed_head :
    (buf frame : Bytes) (n : ℕ) (r : Bool × Message)
    → split_frame buf ≡ ok frame n
    → parse_frame frame ≡ some r
    → Head buf
parsed_head buf frame n (true, m) e p = message frame n m e p
parsed_head buf frame n (false, m) e p = garbled frame n m e p

head_from : (buf : Bytes) (st : FrameStatus) → split_frame buf ≡ st → Head buf
head_from buf incomplete e = waits e
head_from buf malformed e = broken e
head_from buf (ok frame n) e = let (r, p) = parse_frame_total frame in parsed_head buf frame n r e p

pub head_of : (buf : Bytes) → Head buf
head_of buf = head_from buf (split_frame buf) refl

-- The session with the message counted.
abbrev pub counted : Gateway × Session → Gateway × Session
counted c = (c.0, record c.1 { in_seq = next32 c.1.in_seq })

module _ (P : Platform) where
  pub drain-waits :
      (fuel : ℕ) (c : Gateway × Session)
      → split_frame c.1.rx_buf ≡ incomplete
      → drain P (suc fuel) c ≡ some c
  unfolding drain
  drain-waits fuel c e = rw (e, drain) refl

  pub drain-broken :
      (fuel : ℕ) (c : Gateway × Session)
      → split_frame c.1.rx_buf ≡ malformed
      → drain P (suc fuel) c ≡ some (end_session P malformed_frame c)
  unfolding drain
  drain-broken fuel c e = rw (e, drain) refl

  pub drain-garbled :
      (fuel : ℕ) (c : Gateway × Session) (frame : Bytes) (n : ℕ) (m : Message)
      → split_frame c.1.rx_buf ≡ ok frame n
      → parse_frame frame ≡ some (false, m)
      → drain P (suc fuel) c ≡ some (end_session P parse_failed c)
  unfolding drain handle_frame
  drain-garbled fuel c frame n m e p = rw (e, drain, p, handle_frame) refl

  -- A message is handled, and the loop goes on behind it.
  pub drain-message :
      (fuel : ℕ) (c : Gateway × Session) (frame : Bytes) (n : ℕ) (m : Message)
      → split_frame c.1.rx_buf ≡ ok frame n
      → parse_frame frame ≡ some (true, m)
      → drain P (suc fuel) c ≡ (
          handle_message P m (counted c) >>= λ c'.
          drain P fuel (with_buffer (drop n c.1.rx_buf) c'))
  unfolding drain handle_frame
  drain-message fuel c frame n m e p = elim (Option-cases (handle_message P m (counted c))) [
    | inl stuck ↦ rw (e, drain, p, handle_frame, stuck) refl
    | inr (c', done) ↦
        rw (e, drain, p, handle_frame, done)
          (ap (λ r. drain P fuel (with_buffer (drop n r) c'))
            (handle_message-rx_buf P m (counted c) c' done))
  ]

  pub shorter :
      (fuel n : ℕ) (buf frame : Bytes)
      → split_frame buf ≡ ok frame n
      → length buf < suc fuel
      → length (drop n buf) < fuel
  shorter fuel n buf frame e h =
      let (some_bytes, within) = consumed-Within buf frame n e in
      omega (arith, length-drop n buf within, some_bytes, h)

  -- A round for each byte, and one more, is enough.
  pub drain_enough :
      (f1 f2 : ℕ) (c : Gateway × Session)
      → length c.1.rx_buf < f1
      → length c.1.rx_buf < f2
      → drain P f1 c ≡ drain P f2 c
  drain_enough zero f2 c h k = absurd (omega (arith, h))
  drain_enough (suc f1) zero c h k = absurd (omega (arith, k))
  drain_enough (suc f1) (suc f2) c h k = elim (head_of c.1.rx_buf) [
    | waits e ↦ drain-waits f1 c e ∙ sym (drain-waits f2 c e)
    | broken e ↦ drain-broken f1 c e ∙ sym (drain-broken f2 c e)
    | garbled frame n m e p ↦
        drain-garbled f1 c frame n m e p ∙ sym (drain-garbled f2 c frame n m e p)
    | message frame n m e p ↦
        let rest = drop n c.1.rx_buf in
        let go = λ (c' : Gateway × Session).
          drain_enough f1 f2 (with_buffer rest c') (shorter f1 n c.1.rx_buf frame e h)
            (shorter f2 n c.1.rx_buf frame e k) in
        drain-message f1 c frame n m e p
        ∙ ap (λ k. handle_message P m (counted c) >>= k) (fun_ext go)
        ∙ sym (drain-message f2 c frame n m e p)
  ]

  -- What every message, the counting, a logout and a change of the receive buffer keep, the session
  -- loop keeps.
  module _ {ℓ} (I : Gateway × Session → Type ℓ)
      (buffers : (r : Bytes) (c : Gateway × Session) → I c → I (with_buffer r c))
      (counts : (c : Gateway × Session) → I c → I (counted c))
      (ends : (text : Bytes) (c : Gateway × Session) → I c → I (end_session P text c))
      (handles : (m : Message) (c c' : Gateway × Session)
        → handle_message P m c ≡ some c'
        → I c
        → I c') where
    drain_inv : (fuel : ℕ) (c c' : Gateway × Session) → drain P fuel c ≡ some c' → I c → I c'
    unfolding drain
    drain_inv zero c c' d i = cc
    drain_inv (suc fuel) c c' d i = elim (head_of c.1.rx_buf) [
      | waits e ↦ subst I (some-eq (sym (drain-waits fuel c e) ∙ d)) i
      | broken e ↦ subst I (some-eq (sym (drain-broken fuel c e) ∙ d)) (ends malformed_frame c i)
      | garbled frame n m e p ↦
          subst I (some-eq (sym (drain-garbled fuel c frame n m e p) ∙ d)) (ends parse_failed c i)
      | message frame n m e p ↦
          let (c1, h, d1) =
            >>=-eq-some (handle_message P m (counted c)) _
              (sym (drain-message fuel c frame n m e p) ∙ d) in
          drain_inv fuel (with_buffer (drop n c.1.rx_buf) c1) c' d1
            (buffers (drop n c.1.rx_buf) c1 (handles m (counted c) c1 h (counts c i)))
    ]

    pub session_loop_inv :
        (chunks : List Bytes) (c c' : Gateway × Session)
        → session_loop P chunks c ≡ some c'
        → I c
        → I c'
    unfolding session_loop receive
    session_loop_inv [] c c' e i = subst I (some-eq e) i
    session_loop_inv (chunk ∷ chunks) c c' e i = elim (if-eq c.1.running e) [
      | inr (_, same) ↦ subst I (some-eq same) i
      | inl (_, go) ↦
          let (c1, h, rest) = >>=-eq-some (receive P chunk c) (session_loop P chunks) go in
          let buf = c.1.rx_buf ++ chunk in
          session_loop_inv chunks c1 c' rest
            (drain_inv (length buf + 1) (with_buffer buf c) c1 h (buffers buf c i))
    ]
