-- ===== src/Gateway.antt =====
-- The FIX gateway of mvp/src/fix/gateway.{h,cpp}: what it shares between sessions, and a session.
-- Threads, the listening socket and the locks are left out: a handler is one step.
pub mod Sending
pub mod Orders
pub mod Sessions
pub mod Delivery
pub mod Buffers
pub mod Draining
pub mod Chunks
pub mod Serving
pub mod Progress
pub mod Logout
pub mod Talking
pub mod Access
pub mod Numbering
pub mod Reporting
pub mod Feeding
pub mod Listening
pub mod Stopping
use low_latency_hft_matching.Base.{ℕ, ◌+◌, ◌%◌, ◌^◌, [], Bool, true, false, Option}
use low_latency_hft_matching.Fix.Numbers.{Bytes}
use low_latency_hft_matching.Engine.{Engine}
use low_latency_hft_matching.Feed.{Feed}

pub record Gateway : Type 0 where
  pub comp_id : Bytes
  pub engine : Engine
  pub feed : Option Feed
  pub orders : ℕ
  pub execs : ℕ
  pub next_exec_id : ℕ

-- `builder` is emptied by every `begin`, so it is not kept. `sends` counts the calls of `::send`, and
-- `wire` is what they took.
pub record Session : Type 0 where
  pub sender_comp : Bytes
  pub out_seq : ℕ
  pub in_seq : ℕ
  pub logged_on : Bool
  pub rx_buf : Bytes
  pub running : Bool
  pub sends : ℕ
  pub wire : Bytes

unfoldable pub new_gateway : Bytes → Engine → Option Feed → Gateway
new_gateway comp_id engine feed = record {
  comp_id = comp_id;
  engine = engine;
  feed = feed;
  orders = 0;
  execs = 0;
  next_exec_id = 1;
}

unfoldable pub new_session : Session
new_session = record {
  sender_comp = [];
  out_seq = 1;
  in_seq = 0;
  logged_on = false;
  rx_buf = [];
  running = true;
  sends = 0;
  wire = [];
}

-- `uint32_t` sequence numbers.
abbrev pub next32 : ℕ → ℕ
next32 n = (n + 1) % 2 ^ 32
