-- ===== src/Gateway/Buffers.antt =====
-- The handlers of mvp/src/fix/gateway.cpp do not read the receive buffer, and leave it as it was.
use low_latency_hft_matching.Base.{
  ◌≡◌, refl, sym, ap, ◌∙◌, List, [], ◌∷◌, Bool, true, false, Option, none, some, Option-cases, inl,
  inr, ◌==◌, not, ◌&&◌, some-eq, if◌then◌else◌,
}
use low_latency_hft_matching.Fix.{Message, get, msg_type}
use low_latency_hft_matching.Fix.Numbers.{Bytes}
use low_latency_hft_matching.Fix.Building.{Builder, finalize}
use low_latency_hft_matching.Engine
use low_latency_hft_matching.Strategy.{increment}
use low_latency_hft_matching.Platform.{Platform}
use low_latency_hft_matching.Gateway.{Gateway, Session, next32}
use low_latency_hft_matching.Gateway.Sending.{
  ExecReport, send_built, send_logon_ack, send_logout, send_exec_report, send_md_snapshot,
}
use low_latency_hft_matching.Gateway.Orders.{
  NewOrder, read_order, is_garbage, order_side, ticks_of, send_reports, accept_order, on_new_order,
  on_cancel, on_md_request, reports, plain_report, zero_d, publish_quote, quote_of,
}
use low_latency_hft_matching.Gateway.Sessions.{
  Kind, logon, logout, heartbeat, new_order, cancel, md_request, other, kind_of, end_session,
  on_logon, dispatch, handle_message, bye, not_logged_on,
}
use low_latency_hft_matching.Gateway.Delivery.{send_raw-buffered}

-- The session with another receive buffer.
abbrev pub buffered : Bytes → Session → Session
buffered r s = record s { rx_buf = r }

abbrev pub with_buffer : Bytes → Gateway × Session → Gateway × Session
with_buffer r c = (c.0, buffered r c.1)

abbrev pub map_buffer : Bytes → Option (Gateway × Session) → Option (Gateway × Session)
map_buffer r none = none
map_buffer r (some c) = some (with_buffer r c)

map_buffer-if :
    (r : Bytes) (t : Bool) (x y x' y' : Option (Gateway × Session))
    → x ≡ map_buffer r x'
    → y ≡ map_buffer r y'
    → (if t then x else y) ≡ map_buffer r (if t then x' else y')
map_buffer-if r true x y x' y' e f = e
map_buffer-if r false x y x' y' e f = f

module _ (P : Platform) where
  send_built-buffered :
      (b : Builder) (r : Bytes) (s : Session)
      → send_built P b (buffered r s) ≡ buffered r (send_built P b s)
  unfolding send_built
  send_built-buffered b r s =
      send_raw-buffered P (finalize b) r (record s { out_seq = next32 s.out_seq })

  send_logout-buffered :
      (id text r : Bytes) (s : Session)
      → send_logout P id text (buffered r s) ≡ buffered r (send_logout P id text s)
  unfolding send_logout
  send_logout-buffered id text r s = send_built-buffered _ r s

  send_exec_report-buffered :
      (e : ExecReport P.Double) (r : Bytes) (c : Gateway × Session)
      → send_exec_report P e (with_buffer r c) ≡ with_buffer r (send_exec_report P e c)
  unfolding send_exec_report
  send_exec_report-buffered e r (g, s) =
      ap
        (λ (x : Session).
          (record g { next_exec_id = increment g.next_exec_id; execs = increment g.execs }, x))
        (send_built-buffered _ r s)

  send_reports-buffered :
      (es : List (ExecReport P.Double)) (r : Bytes) (c : Gateway × Session)
      → send_reports P es (with_buffer r c) ≡ with_buffer r (send_reports P es c)
  unfolding send_reports
  send_reports-buffered [] r c = refl
  send_reports-buffered (e ∷ es) r c =
      ap (send_reports P es) (send_exec_report-buffered e r c)
      ∙ send_reports-buffered es r (send_exec_report P e c)

  accept_order-buffered :
      (o : NewOrder P) (r : Bytes) (c : Gateway × Session)
      → accept_order P o (with_buffer r c) ≡ map_buffer r (accept_order P o c)
  unfolding accept_order
  accept_order-buffered o r (g, s) =
      elim (Option-cases
        (Engine.place_limit (order_side P o) (ticks_of P o) (P.to_int o.order_qty) g.engine)) [
          | inl e ↦ rw e refl
          | inr (placed, e) ↦ rw e (
              ap
                (λ (x : Gateway × Session).
                  some (publish_quote P o.symbol (quote_of placed.1.book) x.0, x.1))
                (send_reports-buffered
                  (reports P o placed.0 (P.to_int o.order_qty) placed.1.last_trades) r
                  (record g { engine = placed.1 }, s)))
        ]

  on_new_order-buffered :
      (m : Message) (r : Bytes) (c : Gateway × Session)
      → on_new_order P m (with_buffer r c) ≡ map_buffer r (on_new_order P m c)
  unfolding on_new_order
  on_new_order-buffered m r (g, s) =
      let o = read_order P m in
      let counted = record g { orders = increment g.orders } in
      map_buffer-if r (is_garbage P o) _ _ _ _
        (ap some (
          send_exec_report-buffered (plain_report P o 0 56 56 o.order_qty (zero_d P) (zero_d P)) r
            (counted, s)))
        (accept_order-buffered o r (counted, s))

  on_cancel-buffered :
      (m : Message) (r : Bytes) (c : Gateway × Session)
      → on_cancel P m (with_buffer r c) ≡ with_buffer r (on_cancel P m c)
  unfolding on_cancel
  on_cancel-buffered m r (g, s) = send_exec_report-buffered _ r _

  on_md_request-buffered :
      (m : Message) (r : Bytes) (c : Gateway × Session)
      → on_md_request P m (with_buffer r c) ≡ with_buffer r (on_md_request P m c)
  unfolding on_md_request send_md_snapshot
  on_md_request-buffered m r (g, s) = ap (λ x. (g, x)) (send_built-buffered _ r s)

  end_session-buffered :
      (text r : Bytes) (c : Gateway × Session)
      → end_session P text (with_buffer r c) ≡ with_buffer r (end_session P text c)
  unfolding end_session
  end_session-buffered text r (g, s) =
      ap (λ (x : Session). (g, record x { running = false })) (send_logout-buffered _ text r s)

  on_logon-buffered :
      (m : Message) (r : Bytes) (c : Gateway × Session)
      → on_logon P m (with_buffer r c) ≡ with_buffer r (on_logon P m c)
  unfolding on_logon send_logon_ack
  on_logon-buffered m r (g, s) =
      ap (λ x. (g, x))
        (send_built-buffered _ r (record s { sender_comp = get 49 m; logged_on = true }))

  dispatch-buffered :
      (k : Kind) (m : Message) (r : Bytes) (c : Gateway × Session)
      → dispatch P k m (with_buffer r c) ≡ map_buffer r (dispatch P k m c)
  unfolding dispatch
  dispatch-buffered logon m r c = ap some (on_logon-buffered m r c)
  dispatch-buffered logout m r c = ap some (end_session-buffered bye r c)
  dispatch-buffered heartbeat m r c = refl
  dispatch-buffered new_order m r c = on_new_order-buffered m r c
  dispatch-buffered cancel m r c = ap some (on_cancel-buffered m r c)
  dispatch-buffered md_request m r c = ap some (on_md_request-buffered m r c)
  dispatch-buffered other m r c = refl

  pub handle_message-buffered :
      (m : Message) (r : Bytes) (c : Gateway × Session)
      → handle_message P m (with_buffer r c) ≡ map_buffer r (handle_message P m c)
  unfolding handle_message
  handle_message-buffered m r c =
      map_buffer-if r (not c.1.logged_on && not (msg_type m == 65)) _ _ _ _
        (ap some (end_session-buffered not_logged_on r c))
        (dispatch-buffered (kind_of (msg_type m)) m r c)

  -- A message leaves the receive buffer as it was.
  pub handle_message-rx_buf :
      (m : Message) (c c' : Gateway × Session)
      → handle_message P m c ≡ some c'
      → c'.1.rx_buf ≡ c.1.rx_buf
  handle_message-rx_buf m c c' e =
      let same = sym e ∙ handle_message-buffered m c.1.rx_buf c ∙ ap (map_buffer c.1.rx_buf) e in
      ap (λ (x : Gateway × Session). x.1.rx_buf) (some-eq same)

  pub end_session-rx_buf :
      (text : Bytes) (c : Gateway × Session) → (end_session P text c).1.rx_buf ≡ c.1.rx_buf
  end_session-rx_buf text c =
      ap (λ (x : Gateway × Session). x.1.rx_buf) (end_session-buffered text c.1.rx_buf c)
