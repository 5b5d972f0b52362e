-- ===== src/Gateway/Access.antt =====
-- Who may use the engine in mvp/src/fix/gateway.cpp.
use low_latency_hft_matching.Base.{
  ℕ, ◌≡◌, refl, ap, ◌∙◌, ◌⊎◌, inl, inr, List, Bool, true, false, not, ◌&&◌, ◌==◌, some, if-eq,
  if-false, some-eq, subst, Bool-cases,
}
use low_latency_hft_matching.Fix.{Message, msg_type}
use low_latency_hft_matching.Fix.Numbers.{Bytes}
use low_latency_hft_matching.Platform.{Platform}
use low_latency_hft_matching.Gateway.{Gateway, Session, next32}
use low_latency_hft_matching.Gateway.Sending.{send_built, send_logon_ack}
use low_latency_hft_matching.Gateway.Sessions.{
  Kind, logon, kind_of, dispatch, end_session, on_logon, handle_message, session_loop, bye,
  not_logged_on,
}
use low_latency_hft_matching.Gateway.Delivery.{send_raw-Keeps}
use low_latency_hft_matching.Gateway.Talking.{
  Talks, starts, says, logs_on, ends, counts, buffers, handle_message-Goes, end_session-Goes,
}
use low_latency_hft_matching.Gateway.Draining.{counted, session_loop_inv}

-- Nothing shared has changed, or the session is logged on.
abbrev Barred : Gateway → Gateway × Session → Type 0
Barred g c = (c.0 ≡ g) ⊎ (c.1.logged_on ≡ true)

only_logon : (on a : Bool) → on ≡ false → (not on && not a) ≡ false → a ≡ true
only_logon on true e h = refl
only_logon true false e h = cc
only_logon false false e h = cc

kind_logon : (mt : ℕ) → (mt == 65) ≡ true → kind_of mt ≡ logon
unfolding kind_of
kind_logon mt e = rw e refl

pub admitted : (on a : Bool) → on ≡ true → (not on && a) ≡ false
admitted true a e = refl
admitted false a e = cc

module _ (P : Platform) where
  Talks-logged_on :
      (id : Bytes) (s t : Session) → Talks P id s t → s.logged_on ≡ true → t.logged_on ≡ true
  unfolding send_built
  Talks-logged_on id s t starts h = h
  Talks-logged_on id s _ (says t ty adds k) h =
      (send_raw-Keeps P _ (record t { out_seq = next32 t.out_seq })).logged_on
      ∙ Talks-logged_on id s t k h
  Talks-logged_on id s _ (logs_on t x k) h = refl
  Talks-logged_on id s _ (ends t k) h = Talks-logged_on id s t k h
  Talks-logged_on id s _ (counts t n k) h = Talks-logged_on id s t k h
  Talks-logged_on id s _ (buffers t r k) h = Talks-logged_on id s t k h

  handle_message-logged_on :
      (m : Message) (c c' : Gateway × Session)
      → handle_message P m c ≡ some c'
      → c.1.logged_on ≡ true
      → c'.1.logged_on ≡ true
  handle_message-logged_on m c c' e h =
      Talks-logged_on c.0.comp_id c.1 c'.1
        (handle_message-Goes P c.1 c.0.comp_id m c c' e (refl, starts)).1 h

  end_session-Barred :
      (g : Gateway) (text : Bytes) (c : Gateway × Session)
      → Barred g c
      → Barred g (end_session P text c)
  unfolding end_session
  end_session-Barred g text c (inl same) = inl same
  end_session-Barred g text c (inr on) = inr (
      Talks-logged_on c.0.comp_id c.1 _ (end_session-Goes P text c.1 c.0.comp_id c (refl, starts)).1
        on)

  on_logon-logged_on : (m : Message) (c : Gateway × Session) → (on_logon P m c).1.logged_on ≡ true
  unfolding on_logon send_logon_ack send_built
  on_logon-logged_on m c = (send_raw-Keeps P _ _).logged_on

  dispatch-Barred :
      (g : Gateway) (m : Message) (c c' : Gateway × Session) (k : Kind)
      → k ≡ logon
      → dispatch P k m c ≡ some c'
      → Barred g c'
  unfolding dispatch
  dispatch-Barred g m c c' logon e d =
      inr (
        subst (λ (x : Gateway × Session). x.1.logged_on ≡ true) (some-eq d)
          (on_logon-logged_on m c))
  dispatch-Barred g m c c' _ e d = cc

  handle_message-Barred :
      (g : Gateway) (m : Message) (c c' : Gateway × Session)
      → handle_message P m c ≡ some c'
      → Barred g c
      → Barred g c'
  unfolding handle_message
  handle_message-Barred g m c c' e (inr on) = inr (handle_message-logged_on m c c' e on)
  handle_message-Barred g m c c' e (inl same) = elim (Bool-cases c.1.logged_on) [
    | inl on ↦ inr (handle_message-logged_on m c c' e on)
    | inr off ↦ elim (if-eq (not c.1.logged_on && not (msg_type m == 65)) e) [
      | inl (_, out) ↦
          subst (Barred g) (some-eq out) (end_session-Barred g not_logged_on c (inl same))
      | inr (late, on) ↦
          dispatch-Barred g m c c' (kind_of (msg_type m))
            (kind_logon (msg_type m) (only_logon c.1.logged_on (msg_type m == 65) off late)) on
    ]
  ]

  -- Whatever arrives on a connection: as long as its session is not logged on, nothing that the
  -- sessions share has changed, neither the engine, nor the feed, nor a counter.
  pub session_loop-Barred :
      (chunks : List Bytes) (c c' : Gateway × Session)
      → session_loop P chunks c ≡ some c'
      → (c'.0 ≡ c.0) ⊎ (c'.1.logged_on ≡ true)
  session_loop-Barred chunks c c' e =
      session_loop_inv P (Barred c.0) (λ r d i. i) (λ d i. i)
        (λ text d i. end_session-Barred c.0 text d i)
        (λ m d d' h i. handle_message-Barred c.0 m d d' h i) chunks c c' e (inl refl)

  pub handle_message-logout :
      (m : Message) (c : Gateway × Session)
      → msg_type m ≡ 53
      → c.1.logged_on ≡ true
      → handle_message P m c ≡ some (end_session P bye c)
  unfolding handle_message dispatch kind_of
  handle_message-logout m c t on =
      if-false (not c.1.logged_on && not (msg_type m == 65)) _ _
        (admitted c.1.logged_on (not (msg_type m == 65)) on)
      ∙ ap (λ x. dispatch P (kind_of x) m c) t

  pub logged_on-bye :
      (c : Gateway × Session)
      → c.1.logged_on ≡ true
      → (end_session P bye (counted c)).1.logged_on ≡ true
  logged_on-bye c on =
      Talks-logged_on c.0.comp_id c.1 _
        (end_session-Goes P bye c.1 c.0.comp_id (counted c)
          (refl, counts c.1 (next32 c.1.in_seq) starts)).1
        on
