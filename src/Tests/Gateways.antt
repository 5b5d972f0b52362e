-- ===== src/Tests/Gateways.antt =====
-- Runs of the gateway and the feed.
use low_latency_hft_matching.Base.{
  ℕ, ◌≤◌, ◌<◌, ◌≡◌, ◌⊎◌, refl, ℤ, pos, negsuc, ◌+ℤ◌, ◌*ℤ◌, leb_ℤ, List, [], ◌∷◌, ◌++◌, true, false,
  none, some, map, leb, length, drop, if◌then◌else◌, arith,
}
use low_latency_hft_matching.Book.Types.{sell}
use low_latency_hft_matching.Book.Valid.{IsValid, empty_book-IsValid, outcome}
use low_latency_hft_matching.Book.Resting.{after_place-IsValid}
use low_latency_hft_matching.Book.{empty_book}
use low_latency_hft_matching.Portfolio.{quot_ℤ}
use low_latency_hft_matching.Engine.{Engine, new_engine}
use low_latency_hft_matching.Fix.{Message, msg_type, get, get_double}
use low_latency_hft_matching.Fix.Numbers.{
  Bytes, from_chars, digits, zeros, from_digits, leading_digits, digits_value,
}
use low_latency_hft_matching.Fix.Framing.{
  checksum, sum_bytes, split_frame, parse_frame, eqb_bytes, byte_at, split_length, scan_digits,
  split_body, check_sum, read_checksum, parse_from, parse_field, scan_tag, scan_value,
}
use low_latency_hft_matching.Fix.Building.{int_chars, begin, finalize, add_int, add_str, add_char}
use low_latency_hft_matching.Fix.Messages.{Add, adds_str, adds_char, add_all}
use low_latency_hft_matching.Platform.{Platform, NeverFails}
use low_latency_hft_matching.Feed.{new_feed, open_feed}
use low_latency_hft_matching.Feed.Datagrams.{new_feed-IsNumbered, open_feed-IsNumbered}
use low_latency_hft_matching.Gateway.{Gateway, Session, new_gateway, new_session}
use low_latency_hft_matching.Gateway.Sending.{
  send_raw, send_from, send_built, send_logon_ack, ExecReport,
}
use low_latency_hft_matching.Gateway.Orders.{
  NewOrder, send_reports, publish_quote, quote_of, accept_order, order_side, ticks_of, is_garbage,
  read_order, side_char,
}
use low_latency_hft_matching.Gateway.Sessions.{
  session_loop, receive, drain, handle_frame, handle_message, kind_of, dispatch, on_logon,
}
use low_latency_hft_matching.Gateway.Delivery.{Delivers, Stops, send_raw-Delivers}
use low_latency_hft_matching.Gateway.Chunks.{receive-append}
use low_latency_hft_matching.Gateway.Serving.{placed, session_loop-IsValid}
use low_latency_hft_matching.Gateway.Progress.{
  Answers, Reads, reads, rests, at_rest, session_loop-progress,
}
use low_latency_hft_matching.Gateway.Logout.{receive_after_logout}
use low_latency_hft_matching.Gateway.Access.{session_loop-Barred}
use low_latency_hft_matching.Gateway.Numbering.{Sent, session_loop-Sent}
use low_latency_hft_matching.Gateway.Reporting.{Closes, accept_order-Closes}
use low_latency_hft_matching.Gateway.Listening.{
  Connection, Server, connection, interrupted, Lives, born, starts, accepts, hangs_up, new_server,
  overwrite, start_server, add_session, acceptor_loop, hang_up, close_connection, stop_server,
}
use low_latency_hft_matching.Gateway.Stopping.{AllEnded, stop_server-Lives}
use low_latency_hft_matching.Gateway.Feeding.{Feeds, session_loop-Feeds}

-- Numbers with four decimals.
abbrev scale : ℤ
scale = pos 10000

-- The socket takes 40 bytes in a call at most.
abbrev took_at_most_40 : ℕ → ℕ → ℕ
took_at_most_40 k n = if leb n 40 then n else 40

abbrev decimals : Platform
decimals = record {
  Double = ℤ;
  le = leb_ℤ;
  add = ◌+ℤ◌;
  mul = λ a b. quot_ℤ (a *ℤ b) scale;
  div = λ a b. quot_ℤ (a *ℤ scale) b;
  of_int = λ n. n *ℤ scale;
  to_int = λ d. quot_ℤ d scale;
  half = pos 5000;
  strtod = λ cs. elim (from_chars cs) [ none ↦ none | some n ↦ some (n *ℤ scale) ];
  print = λ d n. int_chars (quot_ℤ d scale);
  behind = zeros;
  send = λ k n. pos (took_at_most_40 k n);
  sendto = λ seq line. pos (length line);
}

taken_some : (k n : ℕ) → 0 < n → 0 < took_at_most_40 k n
taken_some k n h = ground (arith, h)

taken_no_more : (k n : ℕ) → took_at_most_40 k n ≤ n
taken_no_more k n = ground arith

abbrev decimals-NeverFails : NeverFails decimals
decimals-NeverFails = record {
  took = took_at_most_40;
  some_taken = taken_some;
  no_more = taken_no_more;
  returned = λ k n. refl;
}

-- The socket fails from the second call on.
abbrev failing : Platform
failing = record decimals { send = λ k n. if leb 1 k then negsuc 0 else pos 2 }

send_raw-Delivers_example :
    Delivers (7 ∷ 8 ∷ 9 ∷ []) new_session (send_raw failing (7 ∷ 8 ∷ 9 ∷ []) new_session)
    ⊎ Stops (7 ∷ 8 ∷ 9 ∷ []) new_session (send_raw failing (7 ∷ 8 ∷ 9 ∷ []) new_session)
send_raw-Delivers_example = send_raw-Delivers failing (7 ∷ 8 ∷ 9 ∷ []) new_session

-- Frames of the client H to the engine T: a logon, an order to buy five at two, a logout.
abbrev frame_of : ℕ → ℕ → List Add → Bytes
frame_of msg_type seq adds = finalize (add_all adds (begin msg_type (72 ∷ []) (84 ∷ []) seq))

abbrev logon_frame : Bytes
logon_frame = frame_of 65 1 []

abbrev order_adds : List Add
order_adds =
    adds_str 11 (88 ∷ [])
    ∷ adds_str 55 (83 ∷ [])
    ∷ adds_char 54 49
    ∷ adds_str 38 (53 ∷ [])
    ∷ adds_str 44 (50 ∷ [])
    ∷ []

abbrev order_frame : Bytes
order_frame = frame_of 68 2 order_adds

-- A gateway with an empty book and an open feed.
abbrev start : Gateway × Session
start =
    (new_gateway (84 ∷ []) (new_engine 8) (some (open_feed (pos 3) true new_feed).1), new_session)

-- The order frame is cut in two.
abbrev arriving : List Bytes
arriving = logon_frame ∷ (56 ∷ 61 ∷ []) ∷ drop 2 order_frame ∷ []

-- The gateway's run on these chunks.
run_arriving :
    (c : Gateway × Session) × (session_loop decimals arriving start ≡ some c)
    × IsValid c.0.engine.book
unfolding new_gateway new_session new_engine digits finalize begin empty_book zeros checksum
    sum_bytes
run_arriving = session_loop-IsValid decimals arriving start (omega arith) (empty_book-IsValid 8)

session_loop-IsValid_example :
    (c : Gateway × Session) × (session_loop decimals arriving start ≡ some c)
    × IsValid c.0.engine.book
unfolding new_gateway new_session new_engine digits finalize begin empty_book zeros checksum
    sum_bytes
session_loop-IsValid_example =
    session_loop-IsValid decimals arriving start (omega arith) (empty_book-IsValid 8)

session_loop-progress_example :
    (c : Gateway × Session) × (session_loop decimals arriving start ≡ some c)
    × Answers decimals arriving start c
unfolding new_gateway new_session new_engine digits finalize begin empty_book zeros checksum
    sum_bytes
session_loop-progress_example =
    session_loop-progress decimals arriving start (omega arith) (empty_book-IsValid 8)

session_loop-Sent_example :
    (c : Gateway × Session) × (session_loop decimals arriving start ≡ some c)
    × Sent (84 ∷ []) 1 [] c.1.out_seq c.1.wire
unfolding new_gateway new_session
session_loop-Sent_example =
    let (c, e, _) = run_arriving in
    (c, e, session_loop-Sent decimals decimals-NeverFails arriving start c e)

session_loop-Barred_example :
    (c : Gateway × Session) × (session_loop decimals arriving start ≡ some c)
    × ((c.0 ≡ start.0) ⊎ (c.1.logged_on ≡ true))
session_loop-Barred_example =
    let (c, e, _) = run_arriving in (c, e, session_loop-Barred decimals arriving start c e)

start_feed : Feeds decimals start.0.feed
unfolding new_gateway
start_feed = open_feed-IsNumbered decimals (pos 3) true new_feed (new_feed-IsNumbered decimals)

session_loop-Feeds_example :
    (c : Gateway × Session) × (session_loop decimals arriving start ≡ some c)
    × Feeds decimals c.0.feed
session_loop-Feeds_example =
    let (c, e, _) = run_arriving in
    (c, e, session_loop-Feeds decimals arriving start c e start_feed)

-- The session behind the logon.
abbrev logged_on : Gateway × Session
logged_on = elim (receive decimals logon_frame start) [ none ↦ start | some c ↦ c ]

receive-append_example :
    receive decimals order_frame logged_on ≡ receive decimals (logon_frame ++ order_frame) start
unfolding new_gateway new_session digits finalize begin zeros checksum sum_bytes receive drain
    split_frame eqb_bytes byte_at split_length scan_digits split_body from_digits leading_digits
    digits_value check_sum read_checksum handle_frame parse_frame parse_from parse_field scan_tag
    scan_value handle_message msg_type get kind_of dispatch on_logon send_logon_ack send_built
    send_raw send_from add_int add_str add_char
receive-append_example = receive-append decimals logon_frame order_frame start logged_on refl refl

-- A session that is logged on, and a logout in front of an order.
abbrev client : Gateway × Session
client = (start.0, record new_session { logged_on = true })

abbrev logout_frame : Bytes
logout_frame = frame_of 53 2 []

client-Reads :
    (logout order : Message) × Reads
      (client.1.rx_buf ++ (logout_frame ++ order_frame))
      (logout ∷ order ∷ [])
      at_rest
      []
    × (msg_type logout ≡ 53)
    × (msg_type order ≡ 68)
    × (is_garbage decimals (read_order decimals order) ≡ false)
unfolding new_gateway new_session digits finalize begin zeros checksum sum_bytes receive drain
    split_frame eqb_bytes byte_at split_length scan_digits split_body from_digits leading_digits
    digits_value check_sum read_checksum handle_frame parse_frame parse_from parse_field scan_tag
    scan_value handle_message msg_type get kind_of dispatch on_logon send_logon_ack send_built
    send_raw send_from add_int add_str add_char is_garbage read_order get_double from_chars ◌*ℤ◌
    side_char
client-Reads = (
  _,
  _,
  reads logout_frame (length logout_frame) _ refl refl
      (reads order_frame (length order_frame) _ refl refl (rests refl)),
  refl,
  refl,
  refl,
)

receive_after_logout_example :
    (logout order : Message) × (c' : Gateway × Session) × (receive decimals
        (logout_frame ++ order_frame)
        client
      ≡ some c')
    × (c'.1.running ≡ false)
    × (let o = read_order decimals order in
        c'.0.engine
        ≡ placed
            (order_side decimals o)
            (ticks_of decimals o)
            (decimals.to_int o.order_qty)
            client.0.engine)
unfolding new_gateway new_session new_engine
receive_after_logout_example =
    let (logout, order, r, out, new, good) = client-Reads in
    let (c, e, stop, engine) =
      receive_after_logout decimals (logout_frame ++ order_frame) [] client logout order r out new
        good refl (empty_book-IsValid 8) in
    (logout, order, c, e, stop, engine)

-- Five are offered at 1.50; the order buys seven at two.
abbrev offered : Engine
offered = placed sell (pos 150) (pos 5) (new_engine 8)

abbrev seven : NewOrder decimals
seven = record {
  cl_ord_id = 88 ∷ [];
  symbol = 83 ∷ [];
  side_c = 49;
  order_qty = pos 70000;
  price = pos 20000;
}

offered-IsValid : IsValid offered.book
unfolding new_engine empty_book
offered-IsValid =
    after_place-IsValid sell (pos 150) (pos 5) (empty_book 8) (omega arith) (empty_book-IsValid 8)

abbrev offering : Gateway
offering = new_gateway (84 ∷ []) offered none

accept_order-Closes_example :
    let e = placed (order_side decimals seven) (ticks_of decimals seven) (pos 7) offered in
    (rs : List (ExecReport ℤ)) × (accept_order decimals seven (offering, new_session)
      ≡ some (
          let sent = send_reports decimals rs (record offering { engine = e }, new_session) in
          (publish_quote decimals (83 ∷ []) (quote_of e.book) sent.0, sent.1)))
    × Closes decimals
        (outcome (order_side decimals seven) (ticks_of decimals seven) (pos 7) offered.book).left
        rs
unfolding new_gateway quot_ℤ
accept_order-Closes_example =
    accept_order-Closes decimals seven offering new_session offered-IsValid (omega arith)

-- A connection that has ended, and one that has not.
abbrev taken : List Connection
taken =
    record { fd_open = false; running = true; worker = true }
    ∷ record { fd_open = true; running = true; worker = true }
    ∷ []

abbrev serving : Server
serving = record {
  listen_open = true;
  lost = 0;
  bound_port = 9878;
  running = true;
  accepting = true;
  acceptor = true;
  accepted = 2;
  sessions = taken;
}

-- The port is in use at first.
serving-Lives : Lives serving
unfolding new_server start_server overwrite acceptor_loop add_session hang_up
serving-Lives =
    let refused = starts true true false false 0 (false, new_server) born refl refl in
    let started = starts true true true true 9878 _ refused refl refl in
    hangs_up 0 (accepts (connection ∷ interrupted ∷ connection ∷ []) started refl)

stop_server-Lives_example :
    (s' : Server) × (stop_server serving ≡ some (map close_connection taken, s'))
    × AllEnded (map close_connection taken)
    × (s'.listen_open ≡ false)
    × (s'.lost ≡ 0)
    × (s'.acceptor ≡ false)
    × (s'.sessions ≡ [])
    × (stop_server s' ≡ some ([], s'))
stop_server-Lives_example = stop_server-Lives serving serving-Lives
