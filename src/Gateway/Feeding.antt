-- ===== src/Gateway/Feeding.antt =====
-- The feed that the sessions of mvp/src/fix/gateway.cpp publish to.
use low_latency_hft_matching.Base.{
  ◌≡◌, refl, sym, List, [], ◌∷◌, ◌&&◌, not, ◌==◌, Option, none, some, if-eq, some-eq, >>=-eq-some,
  subst, inl, inr,
}
use low_latency_hft_matching.Engine
use low_latency_hft_matching.Fix.{Message, msg_type}
use low_latency_hft_matching.Fix.Numbers.{Bytes}
use low_latency_hft_matching.Platform.{Platform}
use low_latency_hft_matching.Feed.{Feed}
use low_latency_hft_matching.Feed.Datagrams.{IsNumbered, publish_l1-IsNumbered}
use low_latency_hft_matching.Gateway.{Gateway, Session}
use low_latency_hft_matching.Gateway.Sending.{ExecReport, send_exec_report}
use low_latency_hft_matching.Gateway.Orders.{
  NewOrder, read_order, is_garbage, order_side, ticks_of, reports, send_reports, Quote, quote_of,
  publish_quote, accept_order, on_new_order, on_cancel, on_md_request,
}
use low_latency_hft_matching.Gateway.Sessions.{
  Kind, logon, logout, heartbeat, new_order, cancel, md_request, other, kind_of, dispatch,
  end_session, on_logon, handle_message, session_loop,
}
use low_latency_hft_matching.Gateway.Draining.{session_loop_inv}

module _ (P : Platform) where
  -- The feed, if there is one.
  abbrev pub Feeds : Option Feed → Type 0
  Feeds none = Unit {0}
  Feeds (some f) = IsNumbered P f

  send_reports-feed :
      (rs : List (ExecReport P.Double)) (c : Gateway × Session)
      → (send_reports P rs c).0.feed ≡ c.0.feed
  unfolding send_reports send_exec_report
  send_reports-feed [] c = refl
  send_reports-feed (r ∷ rs) c = send_reports-feed rs (send_exec_report P r c)

  published :
      (symbol : Bytes) (q : Quote) (g : Gateway) (o : Option Feed)
      → g.feed ≡ o
      → Feeds o
      → Feeds (publish_quote P symbol q g).feed
  unfolding publish_quote
  published symbol q g none e h = rw (e, publish_quote) (subst Feeds (sym e) h)
  published symbol q g (some f) e h =
      rw (e, publish_quote) (publish_l1-IsNumbered P symbol _ _ _ _ f h)

  accept_order-Feeds :
      (o : NewOrder P) (c c' : Gateway × Session)
      → accept_order P o c ≡ some c'
      → Feeds c.0.feed
      → Feeds c'.0.feed
  unfolding accept_order
  accept_order-Feeds o (g, t) c' e k =
      let (placed, _, e1) =
        >>=-eq-some
          (Engine.place_limit (order_side P o) (ticks_of P o) (P.to_int o.order_qty) g.engine) _
          e in
      let rs = reports P o placed.0 (P.to_int o.order_qty) placed.1.last_trades in
      let c1 = send_reports P rs (record g { engine = placed.1 }, t) in
      let same = send_reports-feed rs (record g { engine = placed.1 }, t) in
      subst (λ (x : Gateway × Session). Feeds x.0.feed) (some-eq e1)
        (published o.symbol (quote_of placed.1.book) c1.0 c1.0.feed refl (subst Feeds (sym same) k))

  on_new_order-Feeds :
      (m : Message) (c c' : Gateway × Session)
      → on_new_order P m c ≡ some c'
      → Feeds c.0.feed
      → Feeds c'.0.feed
  unfolding on_new_order send_exec_report
  on_new_order-Feeds m (g, t) c' e k = elim (if-eq (is_garbage P (read_order P m)) e) [
    | inl (_, sent) ↦ subst (λ (x : Gateway × Session). Feeds x.0.feed) (some-eq sent) k
    | inr (_, placed) ↦ accept_order-Feeds (read_order P m) _ c' placed k
  ]

  dispatch-Feeds :
      (k : Kind) (m : Message) (c c' : Gateway × Session)
      → dispatch P k m c ≡ some c'
      → Feeds c.0.feed
      → Feeds c'.0.feed
  unfolding dispatch on_logon end_session on_cancel on_md_request send_exec_report
  dispatch-Feeds logon m c c' e i = subst (λ (x : Gateway × Session). Feeds x.0.feed) (some-eq e) i
  dispatch-Feeds logout m c c' e i = subst (λ (x : Gateway × Session). Feeds x.0.feed) (some-eq e) i
  dispatch-Feeds heartbeat m c c' e i =
      subst (λ (x : Gateway × Session). Feeds x.0.feed) (some-eq e) i
  dispatch-Feeds new_order m c c' e i = on_new_order-Feeds m c c' e i
  dispatch-Feeds cancel m c c' e i = subst (λ (x : Gateway × Session). Feeds x.0.feed) (some-eq e) i
  dispatch-Feeds md_request m c c' e i =
      subst (λ (x : Gateway × Session). Feeds x.0.feed) (some-eq e) i
  dispatch-Feeds other m c c' e i = subst (λ (x : Gateway × Session). Feeds x.0.feed) (some-eq e) i

  handle_message-Feeds :
      (m : Message) (c c' : Gateway × Session)
      → handle_message P m c ≡ some c'
      → Feeds c.0.feed
      → Feeds c'.0.feed
  unfolding handle_message end_session
  handle_message-Feeds m c c' e i = elim (if-eq (not c.1.logged_on && not (msg_type m == 65)) e) [
    | inl (_, out) ↦ subst (λ (x : Gateway × Session). Feeds x.0.feed) (some-eq out) i
    | inr (_, on) ↦ dispatch-Feeds (kind_of (msg_type m)) m c c' on i
  ]

  end_session-Feeds :
      (text : Bytes) (c : Gateway × Session) → Feeds c.0.feed → Feeds (end_session P text c).0.feed
  unfolding end_session
  end_session-Feeds text c i = i

  -- Whatever a session does, the lines of the feed stay numbered one after the other, and no more are
  -- counted as published than were handed to the socket.
  pub session_loop-Feeds :
      (chunks : List Bytes) (c c' : Gateway × Session)
      → session_loop P chunks c ≡ some c'
      → Feeds c.0.feed
      → Feeds c'.0.feed
  session_loop-Feeds chunks c c' e =
      session_loop_inv P (λ (x : Gateway × Session). Feeds x.0.feed) (λ r d i. i) (λ d i. i)
        end_session-Feeds (λ m d d' h i. handle_message-Feeds m d d' h i) chunks c c' e
