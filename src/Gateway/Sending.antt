-- ===== src/Gateway/Sending.antt =====
-- The outbound helpers of mvp/src/fix/gateway.cpp.
use low_latency_hft_matching.Base.{
  ℕ, zero, suc, ◌+◌, pos, pos_part, is_pos, [], ◌∷◌, ◌++◌, false, length, take, drop, is_empty,
  if◌then◌else◌,
}
use low_latency_hft_matching.Strategy.{increment}
use low_latency_hft_matching.Fix.Numbers.{Bytes, to_chars}
use low_latency_hft_matching.Fix.Building.{
  Builder, begin, add_str, add_int, add_char, add_double, finalize,
}
use low_latency_hft_matching.Platform.{Platform}
use low_latency_hft_matching.Gateway.{Gateway, Session, next32}

-- The arguments of `send_exec_report` behind the session.
pub record ExecReport (D : Type 0) : Type 0 where
  pub cl_ord_id : Bytes
  pub order_id : ℕ
  pub exec_type : ℕ
  pub ord_status : ℕ
  pub side : ℕ
  pub symbol : Bytes
  pub order_qty : D
  pub cum_qty : D
  pub leaves_qty : D
  pub last_qty : D
  pub last_px : D
  pub avg_px : D

-- "E" and the number of the report.
abbrev pub exec_id : ℕ → Bytes
exec_id n = 69 ∷ to_chars n

module _ (P : Platform) where
  open P use {Double, print, behind, send}

  -- The loop of `send_raw`; each round takes a byte at least, so the number of bytes is enough fuel.
  unfoldable pub send_from : ℕ → Bytes → Session → Session
  send_from zero p s = s
  send_from (suc fuel) [] s = s
  send_from (suc fuel) (c ∷ cs) s =
      let n = send s.sends (length (c ∷ cs)) in
      let tried = record s { sends = s.sends + 1 } in
      let again =
        send_from fuel (drop (pos_part n) (c ∷ cs))
          (record tried { wire = s.wire ++ take (pos_part n) (c ∷ cs) }) in
      if is_pos n then again else record tried { running = false }

  unfoldable pub send_raw : Bytes → Session → Session
  unfolding send_from
  send_raw bytes s = send_from (length bytes) bytes s

  -- `begin` with the session's next sequence number.
  abbrev pub begin_next : ℕ → Bytes → Session → Builder
  begin_next msg_type comp_id s = begin msg_type comp_id s.sender_comp s.out_seq

  -- `finalize` and `send_raw`, with `out_seq` incremented.
  unfoldable pub send_built : Builder → Session → Session
  unfolding send_raw
  send_built b s = send_raw (finalize b) (record s { out_seq = next32 s.out_seq })

  unfoldable pub send_logon_ack : Bytes → Session → Session
  unfolding send_built
  send_logon_ack comp_id s =
      let b = begin_next 65 comp_id s in send_built (add_int 108 (pos 30) (add_int 98 (pos 0) b)) s

  unfoldable pub send_logout : Bytes → Bytes → Session → Session
  unfolding send_built
  send_logout comp_id text s =
      let b = begin_next 53 comp_id s in
      send_built (if is_empty text then b else add_str 58 text b) s

  abbrev pub exec_report : Bytes → ExecReport Double → Builder → Builder
  exec_report eid r b =
      let b1 = add_str 17 eid (add_str 11 r.cl_ord_id (add_str 37 (to_chars r.order_id) b)) in
      let b2 = add_char 39 r.ord_status (add_char 150 r.exec_type b1) in
      let b3 = add_char 54 r.side (add_str 55 r.symbol b2) in
      let b4 =
        add_double print behind 14 r.cum_qty 0 (add_double print behind 38 r.order_qty 0 b3) in
      let b5 =
        add_double print behind 32 r.last_qty 0 (add_double print behind 151 r.leaves_qty 0 b4) in
      add_double print behind 6 r.avg_px 4 (add_double print behind 31 r.last_px 2 b5)

  unfoldable pub send_exec_report : ExecReport Double → Gateway × Session → Gateway × Session
  unfolding send_built
  send_exec_report r (g, s) =
      let b = exec_report (exec_id g.next_exec_id) r (begin_next 56 g.comp_id s) in
      (
        record g { next_exec_id = increment g.next_exec_id; execs = increment g.execs },
        send_built b s,
      )

  unfoldable pub send_md_snapshot :
      Bytes → Bytes → Bytes → Double → Double → Double → Double → Session → Session
  unfolding send_built
  send_md_snapshot comp_id md_req_id symbol bid_px bid_sz ask_px ask_sz s =
      let b = begin_next 87 comp_id s in
      let b1 = if is_empty md_req_id then b else add_str 262 md_req_id b in
      let b2 = add_int 268 (pos 2) (add_str 55 symbol b1) in
      let b3 =
        add_double print behind 271 bid_sz 0
          (add_double print behind 270 bid_px 2 (add_char 269 48 b2)) in
      send_built
        (add_double print behind 271 ask_sz 0
          (add_double print behind 270 ask_px 2 (add_char 269 49 b3)))
        s
