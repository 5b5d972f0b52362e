-- ===== src/Gateway/Stopping.antt =====
-- What is left of the gateway of mvp/src/fix/gateway.cpp when it has stopped.
use low_latency_hft_matching.Base.{
  ℕ, ◌+◌, ◌≡◌, refl, sym, ap, ◌∙◌, List, [], ◌∷◌, Bool, true, false, not, ◌&&◌, some, map,
  if◌then◌else◌, Bool-cases, inl, inr, some-eq, if-eq, if-true, if-false, subst,
}
use low_latency_hft_matching.Book.Priority.{All}
use low_latency_hft_matching.Gateway.Listening.{
  Connection, Server, new_server, overwrite, start_server, close_connection, stop_server, Accepted,
  connection, interrupted, failed, add_session, acceptor_loop, hang_up, Lives, born, starts,
  accepts, hangs_up, stops,
}

-- No socket is lost, the one that `listen_fd_` names and the acceptor are there while the gateway
-- runs, and one that does not run holds nothing.
pub record IsSettled (s : Server) : Type 0 where
  pub lost : s.lost ≡ 0
  pub socket : s.listen_open ≡ s.running
  pub thread : s.acceptor ≡ s.running
  pub empty : s.running ≡ false → s.sessions ≡ []

new_server-IsSettled : IsSettled new_server
unfolding new_server
new_server-IsSettled = record { lost = refl; socket = refl; thread = refl; empty = λ e. refl }

start_server-IsSettled :
    (a b c d : Bool) (port : ℕ) (s : Server) (r : Bool × Server)
    → s.running ≡ false
    → start_server a b c d port s ≡ some r
    → IsSettled s
    → IsSettled r.1
unfolding start_server overwrite
start_server-IsSettled a b c d port s r idle e h =
    let kept : (if s.listen_open then s.lost + 1 else s.lost) ≡ 0 =
      if-false s.listen_open _ _ (h.socket ∙ idle) ∙ h.lost in
    elim (if-eq (a && b && c && d) e) [
      | inr (_, f) ↦
          subst (λ (x : Bool × Server). IsSettled x.1) (some-eq f)
            (record { lost = kept; socket = sym idle; thread = h.thread; empty = h.empty })
      | inl (_, f) ↦ elim (if-eq s.acceptor f) [
        | inl (_, g) ↦ cc
        | inr (_, g) ↦
            subst (λ (x : Bool × Server). IsSettled x.1) (some-eq g)
              (record { lost = kept; socket = refl; thread = refl; empty = λ k. cc })
      ]
    ]

stop_server-IsSettled :
    (s : Server) (r : List Connection × Server)
    → stop_server s ≡ some r
    → IsSettled s
    → IsSettled r.1
unfolding stop_server
stop_server-IsSettled s r e h = elim (if-eq (not s.running) e) [
  | inl (_, f) ↦ subst (λ (x : List Connection × Server). IsSettled x.1) (some-eq f) h
  | inr (_, f) ↦ elim (if-eq (s.accepting && not s.listen_open) f) [
    | inl (_, g) ↦ cc
    | inr (_, g) ↦
        subst (λ (x : List Connection × Server). IsSettled x.1) (some-eq g)
          (record { lost = h.lost; socket = refl; thread = refl; empty = λ k. refl })
  ]
]

-- Both branches of a test.
branches {ℓ κ} :
    {A : Type ℓ} (Q : A → Type κ) (t : Bool) (x y : A)
    → (t ≡ true → Q x)
    → (t ≡ false → Q y)
    → Q (if t then x else y)
branches Q true x y f g = f refl
branches Q false x y f g = g refl

leaves-IsSettled : (s : Server) → IsSettled s → IsSettled (record s { accepting = false })
leaves-IsSettled s h = record {
  lost = h.lost;
  socket = h.socket;
  thread = h.thread;
  empty = h.empty;
}

acceptor_loop-IsSettled :
    (answers : List Accepted) (s : Server) → IsSettled s → IsSettled (acceptor_loop answers s)
unfolding acceptor_loop
acceptor_loop-IsSettled [] s h = h
acceptor_loop-IsSettled (connection ∷ answers) s h =
    branches IsSettled s.running _ _
      (λ k.
        acceptor_loop-IsSettled answers (add_session s)
          (record { lost = h.lost; socket = h.socket; thread = h.thread; empty = λ e. cc }))
      (λ k. leaves-IsSettled s h)
acceptor_loop-IsSettled (interrupted ∷ answers) s h =
    branches IsSettled s.running _ _ (λ k. acceptor_loop-IsSettled answers s h)
      (λ k. leaves-IsSettled s h)
acceptor_loop-IsSettled (failed ∷ answers) s h = leaves-IsSettled s h

hang_up-nil : (n : ℕ) (cs : List Connection) → cs ≡ [] → hang_up n cs ≡ []
unfolding hang_up
hang_up-nil n [] e = refl
hang_up-nil n (c ∷ cs) e = cc

Lives-IsSettled : (s : Server) → Lives s → IsSettled s
Lives-IsSettled _ born = new_server-IsSettled
Lives-IsSettled _ (starts {s} a b c d port r l idle e) =
    start_server-IsSettled a b c d port s r idle e (Lives-IsSettled s l)
Lives-IsSettled _ (accepts {s} answers l _) =
    acceptor_loop-IsSettled answers s (Lives-IsSettled s l)
Lives-IsSettled _ (hangs_up {s} n l) =
    let h = Lives-IsSettled s l in
    record {
      lost = h.lost;
      socket = h.socket;
      thread = h.thread;
      empty = λ e. hang_up-nil n s.sessions (h.empty e);
    }
Lives-IsSettled _ (stops {s} r l e) = stop_server-IsSettled s r e (Lives-IsSettled s l)

-- Neither the socket of a connection is open, nor its thread to be joined.
abbrev pub AllEnded : List Connection → Type 0
AllEnded cs =
    All (λ (c : Connection). (c.fd_open ≡ false) × (c.running ≡ false) × (c.worker ≡ false)) cs

close_connection-AllEnded : (cs : List Connection) → AllEnded (map close_connection cs)
unfolding close_connection
close_connection-AllEnded [] = tt
close_connection-AllEnded (c ∷ cs) = ((refl, refl, refl), close_connection-AllEnded cs)

and_false : (a : Bool) → (a && false) ≡ false
and_false true = refl
and_false false = refl

-- A gateway on which nobody calls `start` while it runs, whatever else happens to it and whichever of
-- its starts fail: `stop` returns, closes the socket and joins the thread of every session that the
-- gateway holds, and leaves no listening socket, no acceptor and no session; stopping again does
-- nothing.
pub stop_server-Lives :
    (s : Server)
    → Lives s
    → (s' : Server) × (stop_server s ≡ some (map close_connection s.sessions, s'))
      × AllEnded (map close_connection s.sessions)
      × (s'.listen_open ≡ false)
      × (s'.lost ≡ 0)
      × (s'.acceptor ≡ false)
      × (s'.sessions ≡ [])
      × (stop_server s' ≡ some ([], s'))
unfolding stop_server
stop_server-Lives s l =
    let h = Lives-IsSettled s l in
    let all = close_connection-AllEnded s.sessions in
    elim (Bool-cases s.running) [
      | inl runs ↦
          let awake : (s.accepting && not s.listen_open) ≡ false =
            ap (λ x. s.accepting && not x) (h.socket ∙ runs) ∙ and_false s.accepting in
          (
            record s {
              listen_open = false;
              running = false;
              accepting = false;
              acceptor = false;
              sessions = [];
            },
            if-false (not s.running) _ _ (ap not runs)
                ∙ if-false (s.accepting && not s.listen_open) _ _ awake,
            all,
            refl,
            h.lost,
            refl,
            refl,
            refl,
          )
      | inr idle ↦ (
        s,
        if-true (not s.running) _ _ (ap not idle)
            ∙ ap (λ cs. some (map close_connection cs, s)) (sym (h.empty idle)),
        all,
        h.socket ∙ idle,
        h.lost,
        h.thread ∙ idle,
        h.empty idle,
        if-true (not s.running) _ _ (ap not idle),
      )
    ]
