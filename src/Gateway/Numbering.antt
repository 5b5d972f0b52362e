-- ===== src/Gateway/Numbering.antt =====
-- The messages that a session of mvp/src/fix/gateway.cpp sends, and their sequence numbers.
use low_latency_hft_matching.Base.{ℕ, ◌≡◌, List, ◌++◌, some}
use low_latency_hft_matching.Fix.Numbers.{Bytes}
use low_latency_hft_matching.Fix.Building.{begin, finalize}
use low_latency_hft_matching.Fix.Messages.{Add, add_all}
use low_latency_hft_matching.Platform.{Platform, NeverFails}
use low_latency_hft_matching.Gateway.{Gateway, Session, next32}
use low_latency_hft_matching.Gateway.Sending.{begin_next, send_built}
use low_latency_hft_matching.Gateway.Sessions.{session_loop}
use low_latency_hft_matching.Gateway.Delivery.{send_raw-Keeps, send_raw-all}
use low_latency_hft_matching.Gateway.Talking.{
  Talks, starts, says, logs_on, ends, counts, buffers, session_loop-Goes,
}

-- Behind the bytes `base` there are whole messages from `comp_id`, numbered from `first` on with no
-- gap; `next` is the number after the last.
pub data Sent (comp_id : Bytes) (first : ℕ) (base : Bytes) : ℕ → Bytes → Type 0 where
  none_yet : Sent comp_id first base first base
  one_more :
      (next : ℕ) (wire : Bytes) (msg_type : ℕ) (target : Bytes) (adds : List Add)
      → Sent comp_id first base next wire
      → Sent comp_id first base
          (next32 next)
          (wire ++ finalize (add_all adds (begin msg_type comp_id target next)))

module _ (P : Platform) where
  says-Sent :
      NeverFails P
      → (id base : Bytes) (first : ℕ) (t : Session) (ty : ℕ) (adds : List Add)
      → Sent id first base t.out_seq t.wire
      → let u = send_built P (add_all adds (begin_next P ty id t)) t in
        Sent id first base u.out_seq u.wire
  unfolding send_built
  says-Sent f id base first t ty adds k =
      let bytes = finalize (add_all adds (begin ty id t.sender_comp t.out_seq)) in
      let counted = record t { out_seq = next32 t.out_seq } in
      rw ((send_raw-Keeps P bytes counted).out_seq, send_raw-all P f bytes counted)
        (one_more t.out_seq t.wire ty t.sender_comp adds k)

  Talks-Sent :
      NeverFails P
      → (id : Bytes) (s t : Session) → Talks P id s t
      → Sent id s.out_seq s.wire t.out_seq t.wire
  Talks-Sent f id s t starts = none_yet
  Talks-Sent f id s _ (says t ty adds k) =
      says-Sent f id s.wire s.out_seq t ty adds (Talks-Sent f id s t k)
  Talks-Sent f id s _ (logs_on t x k) = Talks-Sent f id s t k
  Talks-Sent f id s _ (ends t k) = Talks-Sent f id s t k
  Talks-Sent f id s _ (counts t n k) = Talks-Sent f id s t k
  Talks-Sent f id s _ (buffers t r k) = Talks-Sent f id s t k

  -- On a socket that never fails, though it may take the bytes in pieces, what a session puts on the
  -- wire is whole messages from the gateway, each with the sequence number after the one in front of
  -- it, starting at the session's.
  pub session_loop-Sent :
      NeverFails P
      → (chunks : List Bytes) (c c' : Gateway × Session) → session_loop P chunks c ≡ some c'
      → Sent c.0.comp_id c.1.out_seq c.1.wire c'.1.out_seq c'.1.wire
  session_loop-Sent f chunks c c' e =
      Talks-Sent f c.0.comp_id c.1 c'.1 (session_loop-Goes P chunks c c' e).1
