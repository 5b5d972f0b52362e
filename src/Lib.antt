-- ===== src/Lib.antt =====
-- Verification of the low-latency HFT matching engine.
--
-- The program. A FIX gateway, market data feeds and a backtester drive a matching engine
-- (mvp/src/engine.h), which owns one order book (mvp/src/order_book.h, order_book.cpp). The book
-- keeps its resting orders in nodes of an object pool (mvp/src/pool.h), linked into one FIFO queue
-- for each price, with an index from order ids to nodes. Orders reach the engine's thread over a
-- single-producer single-consumer ring (mvp/src/spsc_ring.h). Messages are framed, parsed and built
-- by the FIX codec (mvp/src/fix/parser.h, parser.cpp). The fills of a strategy go into its
-- portfolio (mvp/src/backtest/portfolio.h, portfolio.cpp); the moving average crossover
-- (mvp/strategies/ma_cross.h, ma_cross.cpp) and the market maker (mvp/strategies/mm.h, mm.cpp) are
-- the strategies that there are. The gateway (mvp/src/fix/gateway.h, gateway.cpp) serves FIX sessions:
-- it places and cancels orders for them and hands the top of the book to the market data feed
-- (mvp/src/md/feed.h, feed.cpp). The backtester replays ticks from text or binary files, which a
-- generator (mvp/bench/gen_ticks.cpp) writes. A driver of mvp/src/core, mvp/src/dpdk or mvp/src/fpga is
-- what a process runs, and a PTP client (mvp/src/ptp) estimates the offset of its clock.
--
-- The files.
--   Base          names of the libraries, Boolean tests, list lemmas, the signed integers ℤ.
--   Book          order_book.{h,cpp}. `place_limit`, `cancel`, `match_against`, `best_bid`,
--                 `best_ask`, `qty_at` and `size` are the methods of these names; `match_level` is the
--                 inner loop of `match_against`, `fill_head` that loop's body, `rest_order` the end of
--                 `place_limit`, `cancel_at` the level branch of `cancel`. Types and Levels hold the
--                 data, the two maps and the level helpers. Greedy is the specification: a taker eats
--                 a queue of orders from its head. The other children prove: Matches and Sweep the
--                 loops against Greedy; Sides, Locating, Unlinking, Tracks, Valid, Resting and
--                 Cancelling the invariant and its preservation; Priority, Quantities, Fifo, Quotes,
--                 RoundTrip and Session what the book promises.
--                 Leftover is what a placement leaves of the taker, Liveness how much it trades, Ranking
--                 which orders of the other side it reaches.
--   Engine        engine.h.
--   Pool          pool.h. FreeList is its invariant, Counts the view that Book has of it.
--   Ring          spsc_ring.h. Fifo is its specification, Queue the refinement, Capacity the rounding
--                 of the capacity. Threads cuts both calls at their atomic accesses; Handoff is about
--                 every interleaving of the two threads.
--   Portfolio     portfolio.{h,cpp}. Products has the laws of multiplication, Equity, Averaging and
--                 Settled the effect of a fill.
--   Fix           fix/parser.{h,cpp} (under mvp/src). Numbers has the decimals of the wire, Framing
--                 `checksum`, `split_frame` and `parse_frame`, Building the `Builder`. Frames and Wire
--                 prove what the two parsers do on well-formed bytes, Messages the round trip,
--                 Streaming and Parsing what holds on all bytes, Lookups the accessors of `Message`,
--                 Consumed how many bytes a frame takes.
--   Platform      what the gateway, the feed and the codec call outside the repository: arithmetic on
--                 doubles, `strtod`, printing, `::send` and `::sendto`.
--   Feed          md/feed.{h,cpp}: `open_feed` is `open`, `close_feed` is `close`. Datagrams is about the
--                 lines that it sends.
--   Gateway       fix/gateway.{h,cpp}. Sending has `send_raw` and the builders of the replies, Orders
--                 `on_new_order`, `on_cancel` and `on_md_request`, Sessions `handle_message` and
--                 `session_loop`: `drain` is its inner loop, `handle_frame` that loop's body behind
--                 `split_frame`, `end_session` a logout with `running` cleared. The other children prove:
--                 Delivery what reaches the socket; Buffers and Draining how the receive buffer is used;
--                 Chunks, Serving, Progress, Talking, Access, Numbering, Reporting and Feeding what a
--                 session promises, Logout what is done behind a logout. Listening has `start`, `stop` and `acceptor_loop`, Stopping what is
--                 left after a stop.
--   Backtest      BookTop of backtest/strategy.h, Tick of replay.h and `snapshot_top` of replay.cpp;
--                 Top is about the mark.
--   MaCross       the strategy of mvp/strategies/ma_cross.{h,cpp}. Windows has its averages' windows;
--                 Crossing says what an order answers, Orders what holds of one, Signals when there is one.
--   Strategy      backtest/strategy.{h,cpp}: the account of a strategy, and the context's
--                 `place_limit` and `cancel`. Delivery is about the fills that they hand out.
--   Scan          the conversions of `sscanf` that the loader uses; Written is what they do on numbers as
--                 `to_chars` prints them.
--   Replay        `Replay::run` of backtest/replay.cpp; Routing is about the fills of exogenous orders.
--                 Csv has `load_csv` and `save_csv`, Binary `load_binary` and `save_binary`, and the
--                 RoundTrip below each is about what is loaded of what was saved. Cancels is about
--                 the replay of streams like the generator's.
--   Generator     mvp/bench/gen_ticks.cpp. Streams says what an orderly stream is, Rounds and Orderly
--                 that the generator's is one.
--   MarketMaker   the strategy of mvp/strategies/mm.{h,cpp}; `quote_tick` is its `on_tick`. Quoting is
--                 about its cancels.
--   Ptp           ptp/ptp_client.{h,cpp} and the answer of ptp_oracle.cpp; Accuracy is about the two in
--                 one exchange.
--   Drivers       core/driver.h, core/software_driver.{h,cpp}, dpdk/dpdk_driver.{h,cpp} and
--                 fpga/fpga_driver.{h,cpp}; Polling is about the DPDK driver's `poll`, Lifecycle about
--                 `start` and `stop` of the FPGA driver.
--   Tests         concrete runs.
--
-- How the model stands to the code.
--   State is passed and returned. `int64_t` prices, quantities and PnL are exact integers, since
--   signed overflow is undefined in C++; ids, timestamps, counters and ring indices are naturals that
--   wrap at 2^64. A theorem on placements asks that the id counter does not wrap in this call.
--   A `std::map` is a list in its key order. A level is the list of its nodes, oldest first, so the
--   links `prev` and `next` do not show: unlinking a node is removing it by its id. The index gives
--   the side and the price of an id's node, which is what `cancel` reads through the pointer, and its
--   number of entries. The book sees of the pool how many slots are taken, of how many;
--   Pool.Counts derives this view from the pool's slab and free list.
--   The trades that `place_limit` pushes to its vector are returned at the end of the list passed in.
--   `match_level` runs on the length of its level plus one, and `match_against` on the number of
--   levels plus one; both are enough, so that on a valid book no call runs out.
--   In the ring a mask of a power of two is the remainder by it, and the capacity is given by its
--   exponent. In Ring and Queue a call is one step. In Threads each atomic access is one; an acquire
--   load may return an older index, and a loaded index makes the slots written before it visible.
--   In the codec a byte is its unsigned value, and `split_frame` is cut where its early returns cut
--   it: `split_length`, `split_body` and `check_sum` are its last parts. `to_chars` runs on 20 digits,
--   which hold every 64-bit number; `parse_frame` runs on the number of bytes plus one, and never
--   runs out. `strtod` and the printing of a double are arguments, and so is the memory that
--   `add_double` reads behind its buffer of 64 bytes for a longer text (`vbuf_text`).
--   A strategy is a number in place of a pointer, and in Replay a function on the desk that all
--   contexts share; the pauses of the real-time mode, and `on_start` and `on_end`, which do nothing,
--   are left out.
--   A session of the gateway is given the chunks of bytes that `::recv` returns before the connection
--   ends, and keeps what `::send` took of its replies, in order. A handler is one step, so that what the
--   locks and the atomic counters protect is passed from one handler to the next. The inner loop runs on
--   the number of bytes in the buffer plus one, since a frame takes a byte at least, and `send_raw` on
--   the number of bytes to send. A gateway's step is none only when a loop of the book runs out, which on
--   a valid book none does. The builder of a session is emptied by every `begin` and is not kept. A
--   sequence number wraps at 2^32.
--   A double is a value of the platform, with the operations that the code applies to it. The platform
--   answers a call of the socket by its number and the number of bytes that it is offered.
--   A tick holds its event and its side as bytes: one that is no enumerator of EventType is no event to
--   the replay, and every side but 0 sells, as the code compares a side with Buy only (`side_of_byte`).
--   A tick file is its bytes, or none where it does not open; the binary format has the layout of a
--   64-bit little-endian host, with any bytes in the padding. `poll` of the DPDK driver runs on its
--   budget plus one; a burst is the lengths of its packets. A driver keeps whether its device, its
--   gateway or its feed is there, in place of a handle or a pointer.
--   The clock readings of the PTP client are integers, and its running average takes the step that is
--   computed in doubles as an argument.
--   The gateway's `start`, `stop` and `acceptor_loop` are steps too. None is the end of the program in
--   `start`, where a thread is assigned to one that is not joined, and in `stop` a join that hangs, where
--   a second `start` has lost the socket that the acceptor waits on. The rounds of the tick generator that give
--   no tick are as many as its random draws ask for, so that its fuel depends on them; what the draws
--   give is an argument, with the middle price of each round.
--
-- Not modelled: the interleaving of the gateway's threads; the io_uring gateway, which hands every
-- call on to the gateway; the PTP client's sockets and thread; time and affinity, benchmarks and
-- tests. The destructors and the copying of the pool's raw memory are left out, as are the addresses
-- and labels of sockets and devices, `reserve` and other hints on speed.
pub mod Base
pub mod Book
pub mod Engine
pub mod Pool
pub mod Ring
pub mod Fix
pub mod Portfolio
pub mod Backtest
pub mod MaCross
pub mod Strategy
pub mod Replay
pub mod MarketMaker
pub mod Platform
pub mod Feed
pub mod Gateway
pub mod Scan
pub mod Ptp
pub mod Drivers
pub mod Generator
pub mod Tests
