-- ===== src/Gateway/Serving.antt =====
-- The session loop of mvp/src/fix/gateway.cpp always ends, and keeps the book valid.
use low_latency_hft_matching.Base.{
  ℕ, zero, suc, ◌+◌, ◌^◌, ◌<◌, ◌≤◌, ◌≡◌, refl, sym, ap, ◌∙◌, pos, List, [], ◌∷◌, ◌++◌, not, ◌&&◌,
  ◌==◌, Option, some, arith, ◌>>=◌, drop, length, length-append, Bool-cases, if-true, if-false, inl,
  inr, subst,
}
use low_latency_hft_matching.Book.Types.{Side, Price, Quantity}
use low_latency_hft_matching.Book.Valid.{IsValid, outcome, place_limit_lem}
use low_latency_hft_matching.Book.Resting.{after_place, after_place-IsValid}
use low_latency_hft_matching.Book.Cancelling.{cancel-IsValid}
use low_latency_hft_matching.Book.Session.{next-cancel, next-after_place}
use low_latency_hft_matching.Engine.{Engine}
use low_latency_hft_matching.Engine
use low_latency_hft_matching.Fix.{Message, msg_type, get_int}
use low_latency_hft_matching.Fix.Numbers.{Bytes}
use low_latency_hft_matching.Strategy.{increment}
use low_latency_hft_matching.Platform.{Platform}
use low_latency_hft_matching.Gateway.{Gateway, Session}
use low_latency_hft_matching.Gateway.Sending.{ExecReport, send_exec_report}
use low_latency_hft_matching.Gateway.Orders.{
  NewOrder, read_order, is_garbage, order_side, ticks_of, reports, send_reports, Quote, quote_of,
  publish_quote, accept_order, on_new_order, on_cancel, on_md_request, to_u64,
}
use low_latency_hft_matching.Gateway.Sessions.{
  Kind, logon, logout, heartbeat, new_order, cancel, md_request, other, kind_of, dispatch,
  end_session, on_logon, handle_message, drain, receive, session_loop, malformed_frame,
  parse_failed,
}
use low_latency_hft_matching.Gateway.Buffers.{with_buffer, end_session-rx_buf}
use low_latency_hft_matching.Gateway.Draining.{
  head_of, waits, broken, garbled, message, counted, drain-waits, drain-broken, drain-garbled,
  drain-message, shorter,
}

-- The engine after a placement on a valid book.
abbrev pub placed : Side → Price → Quantity → Engine → Engine
placed side price qty e =
    let ts = (outcome side price qty e.book).trades in
    record { book = after_place side price qty e.book; trades_scratch = ts; last_trades = ts }

pub place_limit-placed :
    (side : Side) (price : Price) (qty : Quantity) (e : Engine)
    → IsValid e.book
    → Engine.place_limit side price qty e ≡ some (e.book.next_id, placed side price qty e)
unfolding Engine.place_limit
place_limit-placed side price qty e v = rw (place_limit_lem side price qty [] e.book v) refl

-- The outcome of a handler: a result, a valid book, and one order id taken at most.
abbrev pub Serves : Engine → Option (Gateway × Session) → Type 0
Serves e o =
    (c : Gateway × Session) × (o ≡ some c)
    × IsValid c.0.engine.book
    × (c.0.engine.book.next_id ≤ e.book.next_id + 1)

-- The bytes of the chunks.
abbrev pub total_length : List Bytes → ℕ
total_length [] = 0
total_length (b ∷ bs) = length b + total_length bs

module _ (P : Platform) where
  pub send_reports-engine :
      (rs : List (ExecReport P.Double)) (c : Gateway × Session)
      → (send_reports P rs c).0.engine ≡ c.0.engine
  unfolding send_reports send_exec_report
  send_reports-engine [] c = refl
  send_reports-engine (r ∷ rs) c = send_reports-engine rs (send_exec_report P r c)

  pub publish_quote-engine :
      (symbol : Bytes) (q : Quote) (g : Gateway) → (publish_quote P symbol q g).engine ≡ g.engine
  unfolding publish_quote
  publish_quote-engine symbol q g = ground arith

  same_engine :
      (e : Engine) (c : Gateway × Session) → c.0.engine ≡ e → IsValid e.book → Serves e (some c)
  same_engine e c same v =
      (c, refl, subst (λ (x : Engine). IsValid x.book) (sym same) v, rw same (omega arith))

  accept_order-Serves :
      (o : NewOrder P) (g : Gateway) (s : Session)
      → g.engine.book.next_id + 1 < 2 ^ 64
      → IsValid g.engine.book
      → Serves g.engine (accept_order P o (g, s))
  unfolding accept_order
  accept_order-Serves o g s h v =
      let qty = P.to_int o.order_qty in
      let e' = placed (order_side P o) (ticks_of P o) qty g.engine in
      let rs = reports P o g.engine.book.next_id qty e'.last_trades in
      let sent = send_reports P rs (record g { engine = e' }, s) in
      let same =
        publish_quote-engine o.symbol (quote_of e'.book) sent.0
        ∙ send_reports-engine rs (record g { engine = e' }, s) in
      rw (place_limit-placed (order_side P o) (ticks_of P o) qty g.engine v) (
        (publish_quote P o.symbol (quote_of e'.book) sent.0, sent.1),
        refl,
        subst (λ (x : Engine). IsValid x.book) (sym same)
            (after_place-IsValid (order_side P o) (ticks_of P o) qty g.engine.book h v),
        omega (
          arith,
          ap (λ (x : Engine). x.book.next_id) same,
          next-after_place (order_side P o) (ticks_of P o) qty g.engine.book h,
        ),
      )

  on_new_order-Serves :
      (m : Message) (g : Gateway) (s : Session)
      → g.engine.book.next_id + 1 < 2 ^ 64
      → IsValid g.engine.book
      → Serves g.engine (on_new_order P m (g, s))
  unfolding on_new_order send_exec_report
  on_new_order-Serves m g s h v = elim (Bool-cases (is_garbage P (read_order P m))) [
    | inl bad ↦ rw bad (same_engine g.engine _ refl v)
    | inr good ↦
        rw good
          (accept_order-Serves (read_order P m) (record g { orders = increment g.orders }) s h v)
  ]

  on_cancel-Serves :
      (m : Message) (g : Gateway) (s : Session)
      → IsValid g.engine.book
      → Serves g.engine (some (on_cancel P m (g, s)))
  unfolding on_cancel send_exec_report Engine.cancel
  on_cancel-Serves m g s v = (
    on_cancel P m (g, s),
    refl,
    cancel-IsValid _ g.engine.book v,
    omega (arith, next-cancel (to_u64 (get_int 37 (pos 0) m)) g.engine.book),
  )

  dispatch-Serves :
      (k : Kind) (m : Message) (c : Gateway × Session)
      → c.0.engine.book.next_id + 1 < 2 ^ 64
      → IsValid c.0.engine.book
      → Serves c.0.engine (dispatch P k m c)
  unfolding dispatch on_logon end_session on_md_request
  dispatch-Serves logon m c h v = same_engine c.0.engine _ refl v
  dispatch-Serves logout m c h v = same_engine c.0.engine _ refl v
  dispatch-Serves heartbeat m c h v = same_engine c.0.engine c refl v
  dispatch-Serves new_order m c h v = on_new_order-Serves m c.0 c.1 h v
  dispatch-Serves cancel m c h v = on_cancel-Serves m c.0 c.1 v
  dispatch-Serves md_request m c h v = same_engine c.0.engine _ refl v
  dispatch-Serves other m c h v = same_engine c.0.engine c refl v

  pub handle_message-Serves :
      (m : Message) (c : Gateway × Session)
      → c.0.engine.book.next_id + 1 < 2 ^ 64
      → IsValid c.0.engine.book
      → Serves c.0.engine (handle_message P m c)
  unfolding handle_message end_session
  handle_message-Serves m c h v = elim (Bool-cases (not c.1.logged_on && not (msg_type m == 65))) [
    | inl early ↦ rw early (same_engine c.0.engine _ refl v)
    | inr late ↦ rw late (dispatch-Serves (kind_of (msg_type m)) m c h v)
  ]

  -- What is left to take from the id counter: an id for each byte in the buffer is enough.
  drain-Serves :
      (fuel : ℕ) (c : Gateway × Session)
      → length c.1.rx_buf < fuel
      → c.0.engine.book.next_id + length c.1.rx_buf < 2 ^ 64
      → IsValid c.0.engine.book
      → (c' : Gateway × Session) × (drain P fuel c ≡ some c')
        × IsValid c'.0.engine.book
        × (c'.0.engine.book.next_id + length c'.1.rx_buf
            ≤ c.0.engine.book.next_id + length c.1.rx_buf)
  unfolding end_session
  drain-Serves zero c h k v = absurd (omega (arith, h))
  drain-Serves (suc fuel) c h k v = elim (head_of c.1.rx_buf) [
    | waits e ↦ (c, drain-waits P fuel c e, v, omega arith)
    | broken e ↦ (
      _,
      drain-broken P fuel c e,
      v,
      omega (arith, ap length (end_session-rx_buf P malformed_frame c)),
    )
    | garbled frame n m e p ↦ (
      _,
      drain-garbled P fuel c frame n m e p,
      v,
      omega (arith, ap length (end_session-rx_buf P parse_failed c)),
    )
    | message frame n m e p ↦
        let less = shorter P (length c.1.rx_buf) n c.1.rx_buf frame e (omega arith) in
        let (c1, done, v1, k1) = handle_message-Serves m (counted c) (omega (arith, less)) v in
        let rest = with_buffer (drop n c.1.rx_buf) c1 in
        let (c2, d2, v2, k2) =
          drain-Serves fuel rest (omega (arith, less, h)) (omega (arith, less, k1, k)) v1 in
        (
          c2,
          drain-message P fuel c frame n m e p
              ∙ ap (λ o. o >>= λ x. drain P fuel (with_buffer (drop n c.1.rx_buf) x)) done
              ∙ d2,
          v2,
          omega (arith, less, k1, k2),
        )
  ]

  -- On a valid book a session ends whatever bytes arrive in whatever chunks, as long as there are
  -- fewer of them than order ids left, and the book is valid afterwards.
  pub session_loop-IsValid :
      (chunks : List Bytes) (c : Gateway × Session)
      → c.0.engine.book.next_id + (length c.1.rx_buf + total_length chunks) < 2 ^ 64
      → IsValid c.0.engine.book
      → (c' : Gateway × Session) × (session_loop P chunks c ≡ some c') × IsValid c'.0.engine.book
  unfolding session_loop receive
  session_loop-IsValid [] c h v = (c, refl, v)
  session_loop-IsValid (chunk ∷ chunks) c h v = elim (Bool-cases c.1.running) [
    | inr stopped ↦ (c, if-false c.1.running _ _ stopped, v)
    | inl runs ↦
        let buf = c.1.rx_buf ++ chunk in
        let l = length-append c.1.rx_buf chunk in
        let (c1, d, v1, k1) =
          drain-Serves (length buf + 1) (with_buffer buf c) (omega arith) (omega (arith, l, h)) v in
        let (c2, rest, v2) = session_loop-IsValid chunks c1 (omega (arith, l, k1, h)) v1 in
        (c2, if-true c.1.running _ _ runs ∙ ap (λ o. o >>= session_loop P chunks) d ∙ rest, v2)
  ]
