-- ===== src/Gateway/Listening.antt =====
-- The life of the gateway of mvp/src/fix/gateway.cpp: `start`, `acceptor_loop` and `stop`, with the
-- ends of sessions. What the system calls answer is an argument; the work of a session is in Sessions.
use low_latency_hft_matching.Base.{
  ℕ, zero, suc, ◌+◌, ◌≡◌, not, List, [], ◌∷◌, ◌++◌, Bool, true, false, ◌&&◌, Option, none, some,
  map, if◌then◌else◌,
}
use low_latency_hft_matching.Strategy.{increment}

-- What `stop` looks at in a session: its socket, whether it is to run, and its thread.
pub record Connection : Type 0 where
  pub fd_open : Bool
  pub running : Bool
  pub worker : Bool

-- Whether `listen_fd_` names a socket, how many listening sockets are open that it names no more,
-- whether the acceptor's loop goes on and whether its thread is to be joined, and the sessions, the
-- oldest first.
pub record Server : Type 0 where
  pub listen_open : Bool
  pub lost : ℕ
  pub bound_port : ℕ
  pub running : Bool
  pub accepting : Bool
  pub acceptor : Bool
  pub accepted : ℕ
  pub sessions : List Connection

unfoldable pub new_server : Server
new_server = record {
  listen_open = false;
  lost = 0;
  bound_port = 0;
  running = false;
  accepting = false;
  acceptor = false;
  accepted = 0;
  sessions = [];
}

-- `listen_fd_` takes another value: the socket that it named stays open.
unfoldable pub overwrite : Bool → Server → Server
overwrite listen_open s = record s {
  listen_open = listen_open;
  lost = if s.listen_open then s.lost + 1 else s.lost;
}

-- `start`: whether `socket`, `inet_pton`, `bind` and `listen` succeed, and the port that is bound. A
-- step that fails closes the new socket. `none` is the end of the program, where a thread is assigned
-- to one that is not joined.
unfoldable pub start_server : Bool → Bool → Bool → Bool → ℕ → Server → Option (Bool × Server)
unfolding overwrite
start_server socket address binds listens port s =
    if socket && address && binds && listens
    then (if s.acceptor
        then none
        else some (
          true,
          record (overwrite true s) {
            bound_port = port;
            running = true;
            accepting = true;
            acceptor = true;
          },
        ))
    else some (false, overwrite false s)

unfoldable pub close_connection : Connection → Connection
close_connection c = record { fd_open = false; running = false; worker = false }

-- `stop`, with what becomes of the sessions. `none` is that it hangs: the acceptor that it joins waits
-- inside `::accept` on a socket that `listen_fd_` does not name, and that nothing closes.
unfoldable pub stop_server : Server → Option (List Connection × Server)
stop_server s =
    if not s.running
    then some ([], s)
    else if s.accepting && not s.listen_open
    then none
    else some (
      map close_connection s.sessions,
      record s {
        listen_open = false;
        running = false;
        accepting = false;
        acceptor = false;
        sessions = [];
      },
    )

-- What `::accept` answers: a connection, an interrupted call, or another error.
pub data Accepted : Type 0 where
  connection interrupted failed : Accepted

abbrev pub new_connection : Connection
new_connection = record { fd_open = true; running = true; worker = true }

unfoldable pub add_session : Server → Server
add_session s = record s {
  accepted = increment s.accepted;
  sessions = s.sessions ++ new_connection ∷ [];
}

-- The loop on the answers of `::accept`, until it waits for the next.
unfoldable pub acceptor_loop : List Accepted → Server → Server
unfolding add_session
acceptor_loop [] s = s
acceptor_loop (connection ∷ answers) s =
    if s.running then acceptor_loop answers (add_session s) else record s { accepting = false }
acceptor_loop (interrupted ∷ answers) s =
    if s.running then acceptor_loop answers s else record s { accepting = false }
acceptor_loop (failed ∷ answers) s = record s { accepting = false }

-- The end of `session_loop` for the session with this number; its thread is not joined.
unfoldable pub hang_up : ℕ → List Connection → List Connection
hang_up n [] = []
hang_up zero (c ∷ cs) = record c { fd_open = false } ∷ cs
hang_up (suc n) (c ∷ cs) = c ∷ hang_up n cs

-- What a gateway comes to from its construction on, if nobody calls `start` while it runs.
pub data Lives : Server → Type 0 where
  born : Lives new_server
  starts :
      {s : Server} (socket address binds listens : Bool) (port : ℕ) (r : Bool × Server)
      → Lives s
      → s.running ≡ false
      → start_server socket address binds listens port s ≡ some r
      → Lives r.1
  accepts :
      {s : Server} (answers : List Accepted)
      → Lives s
      → s.accepting ≡ true
      → Lives (acceptor_loop answers s)
  hangs_up : {s : Server} (n : ℕ) → Lives s → Lives (record s { sessions = hang_up n s.sessions })
  stops : {s : Server} (r : List Connection × Server) → Lives s → stop_server s ≡ some r → Lives r.1
