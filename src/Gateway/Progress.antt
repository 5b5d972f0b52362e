-- ===== src/Gateway/Progress.antt =====
-- Which messages a session of mvp/src/fix/gateway.cpp handles: the reading of a buffer on its own, and
-- the session loop against it.
use low_latency_hft_matching.Base.{
  ℕ, zero, suc, ◌+◌, ◌<◌, ◌^◌, ◌≡◌, refl, sym, ap, ◌∙◌, List, [], ◌∷◌, ◌++◌, true, false, Option,
  none, some, ◌>>=◌, length, drop, if-eq, some-eq, subst, >>=-eq-some, inl, inr,
}
use low_latency_hft_matching.Book.Valid.{IsValid}
use low_latency_hft_matching.Fix.{Message}
use low_latency_hft_matching.Fix.Numbers.{Bytes}
use low_latency_hft_matching.Fix.Framing.{ok, incomplete, malformed, split_frame, parse_frame}
use low_latency_hft_matching.Platform.{Platform}
use low_latency_hft_matching.Gateway.{Gateway, Session}
use low_latency_hft_matching.Gateway.Sessions.{
  end_session, drain, receive, session_loop, malformed_frame, parse_failed, handle_message,
}
use low_latency_hft_matching.Gateway.Buffers.{with_buffer, map_buffer, handle_message-buffered}
use low_latency_hft_matching.Gateway.Draining.{
  head_of, waits, broken, garbled, message, counted, drain-waits, drain-broken, drain-garbled,
  drain-message,
}
use low_latency_hft_matching.Gateway.Serving.{session_loop-IsValid, total_length}

-- How the reading of a buffer ends: with the beginning of a message, or nothing; with bytes that are
-- no frame; or with a frame that does not parse.
pub data Ending : Type 0 where
  at_rest no_frame no_fields : Ending

-- The buffer is these messages one behind the other, and then what is left.
pub data Reads : Bytes → List Message → Ending → Bytes → Type 0 where
  rests : {buf : Bytes} → split_frame buf ≡ incomplete → Reads buf [] at_rest buf
  breaks : {buf : Bytes} → split_frame buf ≡ malformed → Reads buf [] no_frame buf
  garbles :
      {buf : Bytes} (frame : Bytes) (n : ℕ) (m : Message)
      → split_frame buf ≡ ok frame n
      → parse_frame frame ≡ some (false, m)
      → Reads buf [] no_fields buf
  reads :
      {buf left : Bytes} {ms : List Message} {e : Ending} (frame : Bytes) (n : ℕ) (m : Message)
      → split_frame buf ≡ ok frame n
      → parse_frame frame ≡ some (true, m)
      → Reads (drop n buf) ms e left
      → Reads buf (m ∷ ms) e left

module _ (P : Platform) where
  -- These messages are handled one after the other, each counted first.
  unfoldable pub handle_all : List Message → Gateway × Session → Option (Gateway × Session)
  handle_all [] c = some c
  handle_all (m ∷ ms) c = handle_message P m (counted c) >>= λ c'. handle_all ms c'

  unfoldable pub finish : Ending → Gateway × Session → Gateway × Session
  finish at_rest c = c
  finish no_frame c = end_session P malformed_frame c
  finish no_fields c = end_session P parse_failed c

  -- What the chunks do to a session: as long as it is to run, the bytes that it had kept and those of
  -- the chunk are read, all the messages are handled, and it keeps what is left.
  pub data Answers : List Bytes → Gateway × Session → Gateway × Session → Type 0 where
    over : {c : Gateway × Session} → Answers [] c c
    unread :
        {c : Gateway × Session} (chunk : Bytes) (chunks : List Bytes)
        → c.1.running ≡ false
        → Answers (chunk ∷ chunks) c c
    answers :
        {c c1 c' : Gateway × Session} {chunk left : Bytes} {chunks : List Bytes} {ms : List Message}
        {e : Ending}
        → c.1.running ≡ true
        → Reads (c.1.rx_buf ++ chunk) ms e left
        → handle_all ms c ≡ some c1
        → Answers chunks (finish e (with_buffer left c1)) c'
        → Answers (chunk ∷ chunks) c c'

  bind-buffered :
      (f : Gateway × Session → Option (Gateway × Session)) (r : Bytes)
      → ((c : Gateway × Session) → f (with_buffer r c) ≡ map_buffer r (f c))
      → (o : Option (Gateway × Session)) → (map_buffer r o >>= f) ≡ map_buffer r (o >>= f)
  bind-buffered f r h none = refl
  bind-buffered f r h (some c) = h c

  pub handle_all-buffered :
      (ms : List Message) (r : Bytes) (c : Gateway × Session)
      → handle_all ms (with_buffer r c) ≡ map_buffer r (handle_all ms c)
  unfolding handle_all
  handle_all-buffered [] r c = refl
  handle_all-buffered (m ∷ ms) r c =
      ap (λ o. o >>= handle_all ms) (handle_message-buffered P m r (counted c))
      ∙ bind-buffered (handle_all ms) r (handle_all-buffered ms r) (handle_message P m (counted c))

  map_buffer-some :
      (r : Bytes) (o : Option (Gateway × Session)) (c : Gateway × Session)
      → map_buffer r o ≡ some c
      → (c' : Gateway × Session) × (o ≡ some c') × (with_buffer r c' ≡ c)
  map_buffer-some r none c e = cc
  map_buffer-some r (some c') c e = (c', refl, some-eq e)

  -- The messages do not look at the buffer.
  handle_all-unbuffered :
      (ms : List Message) (r : Bytes) (c c' : Gateway × Session)
      → handle_all ms (with_buffer r c) ≡ some c'
      → (c1 : Gateway × Session) × (handle_all ms c ≡ some c1) × (with_buffer r c1 ≡ c')
  handle_all-unbuffered ms r c c' e =
      map_buffer-some r (handle_all ms c) c' (sym (handle_all-buffered ms r c) ∙ e)

  -- What the inner loop does with the buffer.
  Drains : Gateway × Session → Gateway × Session → Type 0
  Drains c c' =
      (ms : List Message) × (e : Ending) × (left : Bytes) × (c1 : Gateway × Session) × Reads
        c.1.rx_buf ms e left
      × (handle_all ms c ≡ some c1)
      × (finish e (with_buffer left c1) ≡ c')

  drain-Drains : (fuel : ℕ) (c c' : Gateway × Session) → drain P fuel c ≡ some c' → Drains c c'
  unfolding drain handle_all finish Drains
  drain-Drains zero c c' d = cc
  drain-Drains (suc fuel) c c' d = elim (head_of c.1.rx_buf) [
    | waits e ↦
        ([], at_rest, c.1.rx_buf, c, rests e, refl, some-eq (sym (drain-waits P fuel c e) ∙ d))
    | broken e ↦
        ([], no_frame, c.1.rx_buf, c, breaks e, refl, some-eq (sym (drain-broken P fuel c e) ∙ d))
    | garbled frame n m e p ↦ (
      [],
      no_fields,
      c.1.rx_buf,
      c,
      garbles frame n m e p,
      refl,
      some-eq (sym (drain-garbled P fuel c frame n m e p) ∙ d),
    )
    | message frame n m e p ↦
        let (c1, h, d1) =
          >>=-eq-some (handle_message P m (counted c)) _
            (sym (drain-message P fuel c frame n m e p) ∙ d) in
        let rest = drop n c.1.rx_buf in
        let (ms, end, left, c2, r, k, f) = drain-Drains fuel (with_buffer rest c1) c' d1 in
        let (c3, k3, same) = handle_all-unbuffered ms rest c1 c2 k in
        (
          m ∷ ms,
          end,
          left,
          c3,
          reads frame n m e p r,
          ap (λ o. o >>= handle_all ms) h ∙ k3,
          ap (λ x. finish end (with_buffer left x)) same ∙ f,
        )
  ]

  session_loop-Answers :
      (chunks : List Bytes) (c c' : Gateway × Session)
      → session_loop P chunks c ≡ some c'
      → Answers chunks c c'
  unfolding session_loop receive Drains
  session_loop-Answers [] c c' e = subst (Answers [] c) (some-eq e) over
  session_loop-Answers (chunk ∷ chunks) c c' e = elim (if-eq c.1.running e) [
    | inr (stop, same) ↦
        subst (Answers (chunk ∷ chunks) c) (some-eq same) (unread chunk chunks stop)
    | inl (runs, go) ↦
        let (c1, h, rest) = >>=-eq-some (receive P chunk c) (session_loop P chunks) go in
        let buf = c.1.rx_buf ++ chunk in
        let (ms, end, left, c2, r, k, f) = drain-Drains (length buf + 1) (with_buffer buf c) c1 h in
        let (c3, k3, same) = handle_all-unbuffered ms buf c c2 k in
        answers runs r k3 (
          subst (λ x. Answers chunks x c')
            (sym (ap (λ x. finish end (with_buffer left x)) same ∙ f))
            (session_loop-Answers chunks c1 c' rest))
  ]

  -- On a valid book, with fewer bytes arriving than order ids are left, a session comes to an end, and
  -- has done what the reading of its bytes asks for: of each chunk, while it is to run, it has handled
  -- every message that is complete by then, in order and none twice, and kept the beginning of the next
  -- one; where the bytes are no frame or have no fields it has sent a logout and is to stop.
  pub session_loop-progress :
      (chunks : List Bytes) (c : Gateway × Session)
      → c.0.engine.book.next_id + (length c.1.rx_buf + total_length chunks) < 2 ^ 64
      → IsValid c.0.engine.book
      → (c' : Gateway × Session) × (session_loop P chunks c ≡ some c') × Answers chunks c c'
  session_loop-progress chunks c h v =
      let (c', e, _) = session_loop-IsValid P chunks c h v in
      (c', e, session_loop-Answers chunks c c' e)
