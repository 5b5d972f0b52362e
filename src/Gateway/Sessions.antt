-- ===== src/Gateway/Sessions.antt =====
-- The session loop of mvp/src/fix/gateway.cpp and its dispatch.
use low_latency_hft_matching.Base.{
  ℕ, zero, suc, ◌+◌, ◌==◌, List, [], ◌∷◌, ◌++◌, Bool, true, false, not, ◌&&◌, Option, none, some,
  length, drop, if◌then◌else◌, ◌>>=◌,
}
use low_latency_hft_matching.Fix.{Message, get, msg_type}
use low_latency_hft_matching.Fix.Numbers.{Bytes}
use low_latency_hft_matching.Fix.Framing.{ok, incomplete, malformed, split_frame, parse_frame}
use low_latency_hft_matching.Platform.{Platform}
use low_latency_hft_matching.Gateway.{Gateway, Session, next32}
use low_latency_hft_matching.Gateway.Sending.{send_logon_ack, send_logout}
use low_latency_hft_matching.Gateway.Orders.{on_new_order, on_cancel, on_md_request}

-- "not logged on", "bye", "malformed FIX frame" and "parse failed".
abbrev pub not_logged_on : Bytes
not_logged_on = 110 ∷ 111 ∷ 116 ∷ 32 ∷ 108 ∷ 111 ∷ 103 ∷ 103 ∷ 101 ∷ 100 ∷ 32 ∷ 111 ∷ 110 ∷ []

abbrev pub bye : Bytes
bye = 98 ∷ 121 ∷ 101 ∷ []

abbrev pub malformed_frame : Bytes
malformed_frame =
    109 ∷ 97 ∷ 108 ∷ 102 ∷ 111 ∷ 114 ∷ 109 ∷ 101 ∷ 100 ∷ 32 ∷ 70 ∷ 73 ∷ 88 ∷ 32 ∷ 102 ∷ 114 ∷ 97
    ∷ 109 ∷ 101 ∷ []

abbrev pub parse_failed : Bytes
parse_failed = 112 ∷ 97 ∷ 114 ∷ 115 ∷ 101 ∷ 32 ∷ 102 ∷ 97 ∷ 105 ∷ 108 ∷ 101 ∷ 100 ∷ []

-- The message types that are handled.
pub data Kind : Type 0 where
  logon logout heartbeat new_order cancel md_request other : Kind

unfoldable pub kind_of : ℕ → Kind
kind_of mt =
    if mt == 65
    then logon
    else if mt == 53
    then logout
    else if mt == 48
    then heartbeat
    else if mt == 68
    then new_order
    else if mt == 70
    then cancel
    else if mt == 86
    then md_request
    else other

module _ (P : Platform) where
  -- A logout message, after which the loop is to stop.
  unfoldable pub end_session : Bytes → Gateway × Session → Gateway × Session
  end_session text (g, s) = (g, record (send_logout P g.comp_id text s) { running = false })

  unfoldable pub on_logon : Message → Gateway × Session → Gateway × Session
  on_logon m (g, s) =
      (g, send_logon_ack P g.comp_id (record s { sender_comp = get 49 m; logged_on = true }))

  -- The switch.
  unfoldable pub dispatch : Kind → Message → Gateway × Session → Option (Gateway × Session)
  dispatch logon m c = some (on_logon m c)
  dispatch logout m c = some (end_session bye c)
  dispatch heartbeat m c = some c
  dispatch new_order m c = on_new_order P m c
  dispatch cancel m c = some (on_cancel P m c)
  dispatch md_request m c = some (on_md_request P m c)
  dispatch other m c = some c

  unfoldable pub handle_message : Message → Gateway × Session → Option (Gateway × Session)
  handle_message m c =
      let mt = msg_type m in
      if not c.1.logged_on && not (mt == 65)
      then some (end_session not_logged_on c)
      else dispatch (kind_of mt) m c

  -- A complete frame: what is left of the loop's body behind `split_frame`. The flag is whether the
  -- loop goes on.
  unfoldable pub handle_frame : Bytes → ℕ → Gateway × Session → Option (Bool × Gateway × Session)
  handle_frame frame consumed (g, s) = parse_frame frame >>= λ parsed.
      if parsed.0
      then (handle_message parsed.1 (g, record s { in_seq = next32 s.in_seq }) >>= λ c.
          some (true, c.0, record c.1 { rx_buf = drop consumed c.1.rx_buf }))
      else (let c = end_session parse_failed (g, s) in some (false, c.0, c.1))

  -- The inner loop of `session_loop`, on fuel.
  unfoldable pub drain : ℕ → Gateway × Session → Option (Gateway × Session)
  drain zero c = none
  drain (suc fuel) c = elim (split_frame c.1.rx_buf) [
    | incomplete ↦ some c
    | malformed ↦ some (end_session malformed_frame c)
    | ok frame consumed ↦ handle_frame frame consumed c >>= λ r. elim r.0 [
      | true ↦ drain fuel (r.1, r.2)
      | false ↦ some (r.1, r.2)
    ]
  ]

  -- One chunk that `::recv` returned; a frame is a byte at least.
  unfoldable pub receive : Bytes → Gateway × Session → Option (Gateway × Session)
  unfolding drain
  receive chunk (g, s) =
      let buf = s.rx_buf ++ chunk in drain (length buf + 1) (g, record s { rx_buf = buf })

  -- `session_loop`: the chunks that arrive before the connection ends.
  unfoldable pub session_loop : List Bytes → Gateway × Session → Option (Gateway × Session)
  session_loop [] c = some c
  session_loop (chunk ∷ chunks) c =
      if c.1.running then (receive chunk c >>= λ c'. session_loop chunks c') else some c
