-- ===== src/Gateway/Logout.antt =====
-- What follows a logout in mvp/src/fix/gateway.cpp.
use low_latency_hft_matching.Base.{
  ℕ, zero, suc, ◌+◌, ◌<◌, ◌≡◌, refl, ap, ◌∙◌, List, [], ◌∷◌, ◌++◌, true, false, not, ◌&&◌, ◌==◌,
  some, length, drop, arith, ◌>>=◌, >>=-eq-some, if-false, is_pos, Bool-cases, inl, inr,
}
use low_latency_hft_matching.Book.Valid.{IsValid}
use low_latency_hft_matching.Fix.{Message, msg_type}
use low_latency_hft_matching.Fix.Numbers.{Bytes}
use low_latency_hft_matching.Platform.{Platform}
use low_latency_hft_matching.Strategy.{increment}
use low_latency_hft_matching.Gateway.{Gateway, Session}
use low_latency_hft_matching.Gateway.Sending.{
  ExecReport, send_from, send_raw, send_built, send_exec_report,
}
use low_latency_hft_matching.Gateway.Orders.{
  NewOrder, read_order, is_garbage, order_side, ticks_of, reports, send_reports, publish_quote,
  quote_of, accept_order, on_new_order,
}
use low_latency_hft_matching.Gateway.Sessions.{
  kind_of, dispatch, end_session, handle_message, drain, receive, bye, malformed_frame,
  parse_failed,
}
use low_latency_hft_matching.Gateway.Buffers.{with_buffer, map_buffer}
use low_latency_hft_matching.Gateway.Draining.{
  counted, drain-waits, drain-broken, drain-garbled, drain-message, shorter,
}
use low_latency_hft_matching.Gateway.Access.{handle_message-logout, admitted, logged_on-bye}
use low_latency_hft_matching.Gateway.Serving.{
  placed, place_limit-placed, publish_quote-engine, send_reports-engine,
}
use low_latency_hft_matching.Gateway.Progress.{
  Ending, at_rest, Reads, rests, breaks, garbles, reads, handle_all, finish, handle_all-buffered,
}

module _ (P : Platform) where
  -- The inner loop does what the reading of the buffer asks for.
  drain-Reads :
      (fuel : ℕ) (c c1 : Gateway × Session) (ms : List Message) (e : Ending) (left : Bytes)
      → length c.1.rx_buf < fuel
      → Reads c.1.rx_buf ms e left
      → handle_all P ms c ≡ some c1
      → drain P fuel c ≡ some (finish P e (with_buffer left c1))
  unfolding handle_all finish
  drain-Reads zero c c1 ms e left h r k = absurd (omega (arith, h))
  drain-Reads (suc fuel) c c1 _ _ _ h (rests s) k =
      drain-waits P fuel c s ∙ ap (λ o. o >>= λ x. some (with_buffer c.1.rx_buf x)) k
  drain-Reads (suc fuel) c c1 _ _ _ h (breaks s) k =
      drain-broken P fuel c s
      ∙ ap (λ o. o >>= λ x. some (end_session P malformed_frame (with_buffer c.1.rx_buf x))) k
  drain-Reads (suc fuel) c c1 _ _ _ h (garbles frame n m s p) k =
      drain-garbled P fuel c frame n m s p
      ∙ ap (λ o. o >>= λ x. some (end_session P parse_failed (with_buffer c.1.rx_buf x))) k
  drain-Reads (suc fuel) c c1 _ e left h (reads {ms = ms} frame n m s p r) k =
      let (c2, f, g) = >>=-eq-some (handle_message P m (counted c)) (handle_all P ms) k in
      let rest = drop n c.1.rx_buf in
      drain-message P fuel c frame n m s p
      ∙ ap (λ o. o >>= λ c'. drain P fuel (with_buffer rest c')) f
      ∙ drain-Reads fuel (with_buffer rest c2) (with_buffer rest c1) ms e left
          (shorter P fuel n c.1.rx_buf frame s h) r
          (handle_all-buffered P ms rest c2 ∙ ap (map_buffer rest) g)

  -- A session that is to stop is not set running by sending.
  send_from-stopped :
      (fuel : ℕ) (p : Bytes) (s : Session)
      → s.running ≡ false
      → (send_from P fuel p s).running ≡ false
  unfolding send_from
  send_from-stopped zero p s h = h
  send_from-stopped (suc fuel) [] s h = h
  send_from-stopped (suc fuel) (c ∷ cs) s h =
      elim (Bool-cases (is_pos (P.send s.sends (length (c ∷ cs))))) [
        | inl some_taken ↦ rw some_taken (send_from-stopped fuel _ _ h)
        | inr failed ↦ rw failed refl
      ]

  send_reports-stopped :
      (rs : List (ExecReport P.Double)) (c : Gateway × Session)
      → c.1.running ≡ false
      → (send_reports P rs c).1.running ≡ false
  unfolding send_reports send_exec_report send_built send_raw
  send_reports-stopped [] c h = h
  send_reports-stopped (r ∷ rs) (g, s) h =
      send_reports-stopped rs (send_exec_report P r (g, s)) (send_from-stopped _ _ _ h)

  -- A garbage-free order is handed to the engine, and the session stays stopped.
  accept_order-stopped :
      (o : NewOrder P) (c : Gateway × Session)
      → IsValid c.0.engine.book
      → c.1.running ≡ false
      → (c' : Gateway × Session) × (accept_order P o c ≡ some c')
        × (c'.1.running ≡ false)
        × (c'.0.engine ≡ placed (order_side P o) (ticks_of P o) (P.to_int o.order_qty) c.0.engine)
  unfolding accept_order
  accept_order-stopped o (g, s) v h =
      let qty = P.to_int o.order_qty in
      let e' = placed (order_side P o) (ticks_of P o) qty g.engine in
      let rs = reports P o g.engine.book.next_id qty e'.last_trades in
      let sent = send_reports P rs (record g { engine = e' }, s) in
      rw (place_limit-placed (order_side P o) (ticks_of P o) qty g.engine v) (
        (publish_quote P o.symbol (quote_of e'.book) sent.0, sent.1),
        refl,
        send_reports-stopped rs (record g { engine = e' }, s) h,
        publish_quote-engine P o.symbol (quote_of e'.book) sent.0
            ∙ send_reports-engine P rs (record g { engine = e' }, s),
      )

  new_order-stopped :
      (m : Message) (c : Gateway × Session)
      → msg_type m ≡ 68
      → c.1.logged_on ≡ true
      → c.1.running ≡ false
      → is_garbage P (read_order P m) ≡ false
      → IsValid c.0.engine.book
      → let o = read_order P m in
        (c' : Gateway × Session) × (handle_message P m c ≡ some c')
        × (c'.1.running ≡ false)
        × (c'.0.engine ≡ placed (order_side P o) (ticks_of P o) (P.to_int o.order_qty) c.0.engine)
  unfolding handle_message dispatch kind_of on_new_order
  new_order-stopped m c t on stop good v =
      let o = read_order P m in
      let (c', e, r, k) =
        accept_order-stopped o (record c.0 { orders = increment c.0.orders }, c.1) v stop in
      (
        c',
        if-false (not c.1.logged_on && not (msg_type m == 65)) _ _
              (admitted c.1.logged_on (not (msg_type m == 65)) on)
            ∙ ap (λ x. dispatch P (kind_of x) m c) t
            ∙ if-false (is_garbage P o) _ _ good
            ∙ e,
        r,
        k,
      )

  -- When a chunk completes a logout and, behind it, an order that is not garbage, the order goes to the
  -- book although the session has been logged out and is to stop.
  pub receive_after_logout :
      (chunk left : Bytes) (c : Gateway × Session) (logout order : Message)
      → Reads (c.1.rx_buf ++ chunk) (logout ∷ order ∷ []) at_rest left
      → msg_type logout ≡ 53
      → msg_type order ≡ 68
      → is_garbage P (read_order P order) ≡ false
      → c.1.logged_on ≡ true
      → IsValid c.0.engine.book
      → let o = read_order P order in
        (c' : Gateway × Session) × (receive P chunk c ≡ some c')
        × (c'.1.running ≡ false)
        × (c'.0.engine ≡ placed (order_side P o) (ticks_of P o) (P.to_int o.order_qty) c.0.engine)
  unfolding receive handle_all finish end_session
  receive_after_logout chunk left c logout order r out new good on v =
      let buf = c.1.rx_buf ++ chunk in
      let last = end_session P bye (counted c) in
      let (c1, e, stop, placed_last) =
        new_order-stopped order (counted last) new (logged_on-bye P c on) refl good v in
      let handled : handle_all P (logout ∷ order ∷ []) c ≡ some c1 =
        ap (λ o. o >>= handle_all P (order ∷ []))
          (handle_message-logout P logout (counted c) out on)
        ∙ ap (λ o. o >>= handle_all P []) e in
      (
        with_buffer left c1,
        drain-Reads (length buf + 1) (with_buffer buf c) (with_buffer buf c1) (logout ∷ order ∷ [])
            at_rest left (omega arith) r
            (handle_all-buffered P (logout ∷ order ∷ []) buf c ∙ ap (map_buffer buf) handled),
        stop,
        placed_last,
      )
