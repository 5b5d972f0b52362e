-- ===== src/Gateway/Talking.antt =====
-- What a session of mvp/src/fix/gateway.cpp goes through, one step at a time.
use low_latency_hft_matching.Base.{
  ℕ, ◌≡◌, refl, ◌∙◌, List, [], ◌∷◌, true, false, not, ◌&&◌, ◌==◌, some, arith, if-eq, some-eq,
  subst, Bool-cases, inl, inr, is_empty, >>=-eq-some, pos,
}
use low_latency_hft_matching.Engine
use low_latency_hft_matching.Fix.{Message, get, msg_type}
use low_latency_hft_matching.Fix.Numbers.{Bytes, to_chars}
use low_latency_hft_matching.Fix.Building.{add_str, add_double, vbuf_text}
use low_latency_hft_matching.Fix.Messages.{Add, adds_str, adds_int, adds_char, add_all}
use low_latency_hft_matching.Platform.{Platform}
use low_latency_hft_matching.Gateway.{Gateway, Session, next32}
use low_latency_hft_matching.Gateway.Sending.{
  ExecReport, begin_next, exec_id, send_built, send_logon_ack, send_logout, send_exec_report,
  send_md_snapshot,
}
use low_latency_hft_matching.Gateway.Orders.{
  NewOrder, read_order, is_garbage, order_side, ticks_of, reports, send_reports, Quote, quote_of,
  publish_quote, accept_order, on_new_order, on_cancel, on_md_request, hundred, ask_shown,
}
use low_latency_hft_matching.Gateway.Sessions.{
  Kind, logon, logout, heartbeat, new_order, cancel, md_request, other, kind_of, dispatch,
  end_session, on_logon, handle_message, session_loop, bye, not_logged_on,
}
use low_latency_hft_matching.Gateway.Draining.{session_loop_inv}

module _ (P : Platform) where
  -- How a session comes from another: it sends messages, logs on, is to stop, counts a message that
  -- came in, and its receive buffer changes.
  pub data Talks (comp_id : Bytes) (s : Session) : Session → Type 0 where
    starts : Talks comp_id s s
    says :
        (t : Session) (msg_type : ℕ) (adds : List Add)
        → Talks comp_id s t
        → Talks comp_id s (send_built P (add_all adds (begin_next P msg_type comp_id t)) t)
    logs_on :
        (t : Session) (sender : Bytes)
        → Talks comp_id s t
        → Talks comp_id s (record t { sender_comp = sender; logged_on = true })
    ends : (t : Session) → Talks comp_id s t → Talks comp_id s (record t { running = false })
    counts : (t : Session) (n : ℕ) → Talks comp_id s t → Talks comp_id s (record t { in_seq = n })
    buffers :
        (t : Session) (r : Bytes) → Talks comp_id s t → Talks comp_id s (record t { rx_buf = r })

  -- The session talks on, and the gateway's name is the same.
  abbrev pub Goes : Session → Bytes → Gateway × Session → Type 0
  Goes s id c = (c.0.comp_id ≡ id) × Talks id s c.1

  send_logout-Talks :
      (id text : Bytes) (s t : Session) → Talks id s t → Talks id s (send_logout P id text t)
  unfolding send_logout
  send_logout-Talks id [] s t k = says t 53 [] k
  send_logout-Talks id (c ∷ cs) s t k = says t 53 (adds_str 58 (c ∷ cs) ∷ []) k

  report_adds : Bytes → ExecReport P.Double → List Add
  report_adds eid r =
      adds_str 37 (to_chars r.order_id)
      ∷ adds_str 11 r.cl_ord_id
      ∷ adds_str 17 eid
      ∷ adds_char 150 r.exec_type
      ∷ adds_char 39 r.ord_status
      ∷ adds_str 55 r.symbol
      ∷ adds_char 54 r.side
      ∷ adds_str 38 (vbuf_text P.behind (P.print r.order_qty 0))
      ∷ adds_str 14 (vbuf_text P.behind (P.print r.cum_qty 0))
      ∷ adds_str 151 (vbuf_text P.behind (P.print r.leaves_qty 0))
      ∷ adds_str 32 (vbuf_text P.behind (P.print r.last_qty 0))
      ∷ adds_str 31 (vbuf_text P.behind (P.print r.last_px 2))
      ∷ adds_str 6 (vbuf_text P.behind (P.print r.avg_px 4))
      ∷ []

  send_exec_report-Goes :
      (r : ExecReport P.Double) (s : Session) (id : Bytes) (c : Gateway × Session)
      → Goes s id c
      → Goes s id (send_exec_report P r c)
  unfolding send_exec_report add_double add_str report_adds
  send_exec_report-Goes r s id (g, t) (same, k) =
      (same, rw same (says t 56 (report_adds (exec_id g.next_exec_id) r) k))

  send_reports-Goes :
      (rs : List (ExecReport P.Double)) (s : Session) (id : Bytes) (c : Gateway × Session)
      → Goes s id c
      → Goes s id (send_reports P rs c)
  unfolding send_reports
  send_reports-Goes [] s id c k = k
  send_reports-Goes (r ∷ rs) s id c k =
      send_reports-Goes rs s id (send_exec_report P r c) (send_exec_report-Goes r s id c k)

  publish_quote-comp_id :
      (symbol : Bytes) (q : Quote) (g : Gateway) → (publish_quote P symbol q g).comp_id ≡ g.comp_id
  unfolding publish_quote
  publish_quote-comp_id symbol q g = ground arith

  accept_order-Goes :
      (o : NewOrder P) (s : Session) (id : Bytes) (c c' : Gateway × Session)
      → accept_order P o c ≡ some c'
      → Goes s id c
      → Goes s id c'
  unfolding accept_order
  accept_order-Goes o s id (g, t) c' e k =
      let (placed, _, e1) =
        >>=-eq-some
          (Engine.place_limit (order_side P o) (ticks_of P o) (P.to_int o.order_qty) g.engine) _
          e in
      let rs = reports P o placed.0 (P.to_int o.order_qty) placed.1.last_trades in
      let (same, talks) = send_reports-Goes rs s id (record g { engine = placed.1 }, t) k in
      subst (Goes s id) (some-eq e1)
        (publish_quote-comp_id o.symbol (quote_of placed.1.book) _ ∙ same, talks)

  on_md_request-Goes :
      (m : Message) (s : Session) (id : Bytes) (c : Gateway × Session)
      → Goes s id c
      → Goes s id (on_md_request P m c)
  unfolding on_md_request send_md_snapshot add_double add_str
  on_md_request-Goes m s id (g, t) (same, k) =
      let q = quote_of g.engine.book in
      let entries =
        adds_str 55 (get 55 m)
        ∷ adds_int 268 (pos 2)
        ∷ adds_char 269 48
        ∷ adds_str 270 (vbuf_text P.behind (P.print (P.div (P.of_int q.bid_px) (hundred P)) 2))
        ∷ adds_str 271 (vbuf_text P.behind (P.print (P.of_int q.bid_sz) 0))
        ∷ adds_char 269 49
        ∷ adds_str 270 (vbuf_text P.behind (P.print (ask_shown P q) 2))
        ∷ adds_str 271 (vbuf_text P.behind (P.print (P.of_int q.ask_sz) 0))
        ∷ [] in
      (
        same,
        elim (Bool-cases (is_empty (get 262 m))) [
          | inl none_asked ↦ rw (none_asked, same) (says t 87 entries k)
          | inr asked ↦ rw (asked, same) (says t 87 (adds_str 262 (get 262 m) ∷ entries) k)
        ],
      )

  pub end_session-Goes :
      (text : Bytes) (s : Session) (id : Bytes) (c : Gateway × Session)
      → Goes s id c
      → Goes s id (end_session P text c)
  unfolding end_session
  end_session-Goes text s id (g, t) (same, k) =
      (same, rw same (ends (send_logout P id text t) (send_logout-Talks id text s t k)))

  on_logon-Goes :
      (m : Message) (s : Session) (id : Bytes) (c : Gateway × Session)
      → Goes s id c
      → Goes s id (on_logon P m c)
  unfolding on_logon send_logon_ack
  on_logon-Goes m s id (g, t) (same, k) = (
    same,
    rw same (
        says (record t { sender_comp = get 49 m; logged_on = true }) 65
          (adds_int 98 (pos 0) ∷ adds_int 108 (pos 30) ∷ []) (logs_on t (get 49 m) k)),
  )

  on_new_order-Goes :
      (m : Message) (s : Session) (id : Bytes) (c c' : Gateway × Session)
      → on_new_order P m c ≡ some c'
      → Goes s id c
      → Goes s id c'
  unfolding on_new_order
  on_new_order-Goes m s id (g, t) c' e k = elim (if-eq (is_garbage P (read_order P m)) e) [
    | inl (_, sent) ↦ subst (Goes s id) (some-eq sent) (send_exec_report-Goes _ s id _ k)
    | inr (_, placed) ↦ accept_order-Goes (read_order P m) s id _ c' placed k
  ]

  on_cancel-Goes :
      (m : Message) (s : Session) (id : Bytes) (c : Gateway × Session)
      → Goes s id c
      → Goes s id (on_cancel P m c)
  unfolding on_cancel
  on_cancel-Goes m s id (g, t) k = send_exec_report-Goes _ s id _ k

  dispatch-Goes :
      (k : Kind) (m : Message) (s : Session) (id : Bytes) (c c' : Gateway × Session)
      → dispatch P k m c ≡ some c'
      → Goes s id c
      → Goes s id c'
  unfolding dispatch
  dispatch-Goes logon m s id c c' e i = subst (Goes s id) (some-eq e) (on_logon-Goes m s id c i)
  dispatch-Goes logout m s id c c' e i =
      subst (Goes s id) (some-eq e) (end_session-Goes bye s id c i)
  dispatch-Goes heartbeat m s id c c' e i = subst (Goes s id) (some-eq e) i
  dispatch-Goes new_order m s id c c' e i = on_new_order-Goes m s id c c' e i
  dispatch-Goes cancel m s id c c' e i = subst (Goes s id) (some-eq e) (on_cancel-Goes m s id c i)
  dispatch-Goes md_request m s id c c' e i =
      subst (Goes s id) (some-eq e) (on_md_request-Goes m s id c i)
  dispatch-Goes other m s id c c' e i = subst (Goes s id) (some-eq e) i

  pub handle_message-Goes :
      (s : Session) (id : Bytes) (m : Message) (c c' : Gateway × Session)
      → handle_message P m c ≡ some c'
      → Goes s id c
      → Goes s id c'
  unfolding handle_message
  handle_message-Goes s id m c c' e i =
      elim (if-eq (not c.1.logged_on && not (msg_type m == 65)) e) [
        | inl (_, out) ↦ subst (Goes s id) (some-eq out) (end_session-Goes not_logged_on s id c i)
        | inr (_, on) ↦ dispatch-Goes (kind_of (msg_type m)) m s id c c' on i
      ]

  -- A session of the loop comes from the one it starts with by these steps.
  pub session_loop-Goes :
      (chunks : List Bytes) (c c' : Gateway × Session)
      → session_loop P chunks c ≡ some c'
      → Goes c.1 c.0.comp_id c'
  session_loop-Goes chunks c c' e =
      session_loop_inv P (Goes c.1 c.0.comp_id) (λ r d i. (i.0, buffers d.1 r i.1))
        (λ d i. (i.0, counts d.1 (next32 d.1.in_seq) i.1))
        (λ text d i. end_session-Goes text c.1 c.0.comp_id d i)
        (λ m d d' h i. handle_message-Goes c.1 c.0.comp_id m d d' h i) chunks c c' e (refl, starts)
