-- ===== src/Lib.antt =====
-- The hft engine: a market data feed drives an order book and a strategy, whose orders pass a risk
-- gate on their way to an exchange. One component is one header of include/hft/, and the components
-- meet in the structs of itch_message.hpp and order_msg.hpp.
--
-- Prelude: tests, lists and machine integers that the other modules share.
-- Wire: the enumerations and structs of include/hft/itch_message.hpp and include/hft/order_msg.hpp,
--   and MdEvent of include/hft/feed_handler.hpp. Wire/Codec is include/hft/itch_parser.hpp: messages
--   as bytes, in the order of a little-endian host; Wire/Symbol is the packing of tickers.
-- Book: BookView of include/hft/book_view.hpp. Each method is a function of its name; `apply` is
--   split at its guard (`apply_index`) and its switch (`apply_at`). Book/Invariant has what holds of
--   the arrays and the cached best indices between two messages, Book/Top the lemmas on the walks,
--   Book/Reference the map that the arrays stand for, Book/Window the prices that fall on levels,
--   Book/History whole message sequences.
-- Strategy: ImbalanceStrategy of include/hft/strategy.hpp, which owns a book. `on_md` returns the
--   order that the source hands to `emit`.
-- Risk: RiskGate of include/hft/risk_gate.hpp. `check` takes the kill switch and the cycle counter
--   as it reads them.
-- Spsc: SpscQueue of include/hft/spsc_queue.hpp. Spsc/Machine runs the two threads, one access to
--   shared memory a step; Spsc/Machine/Invariant and Spsc/Machine/Steps have what holds between
--   steps, Spsc/Machine/Order what the threads see, Spsc/Machine/Alone `push` and `pop` as runs.
-- Itch50: Decoder of include/hft/itch50.hpp, with its field readers and length table.
--   Itch50/Framing is BinaryFileReader. Itch50/Orders has the laws of the order table, Itch50/Parse
--   the field layer, Itch50/Ledger the shares that deltas account for, Itch50/Invariant what holds
--   between messages.
-- Replay: the loop of tools/itch50_replay.cpp over Itch50 and Book, from the bytes of a file to its
--   totals; Replay/Coherence has what holds after each message.
-- Gateway: OrderGateway of include/hft/order_gateway.hpp, which owns a Risk gate. `send` is the part of
--   `poll_once` that follows the pop. Gateway/Table has the table of orders in flight.
-- Engine: the threads of include/hft/engine.hpp as a step relation over Strategy, Gateway and the
--   queues between them; Engine/Stuck has what follows a denied order, Engine/Polls the polls of the
--   two threads, with their bounded rounds, as runs of steps. Engine/Waits has the polls while an
--   order is out, Engine/Released what follows an accepted order that the simulated exchange fills.
-- Feed: FeedHandler of include/hft/feed_handler.hpp, over an interface of what it needs of a queue.
--   `poll_once` cuts a datagram to the receive buffer, as `recv` does, and `read_buffer` is the rest
--   of it. Feed/Tries has the tries of one push, Feed/Delivery what a datagram leaves in the queue and
--   the counters, Feed/Ring the ring of Spsc as such a queue.
-- Exchange: SimExchange of include/hft/sim_exchange.hpp. A socket is a field: what it has sent, or what
--   waits in it. `emit` is `append` of a message and the flush of a full datagram; `step` is the
--   draws of `walk` and the refresh of one side; `run` is an opening, a list of rounds and a flush.
--   Exchange/Frames and Exchange/Ready relate the buffer and the datagrams to the messages,
--   Exchange/Quotes is a receiver with one level a side and the band of prices, Exchange/Feed,
--   Exchange/Refresh, Exchange/Rounds and Exchange/Run carry both through a run, and Exchange/Orders
--   is the service of orders.
-- Affinity: include/hft/affinity.hpp on Linux, the answer of the platform being an argument;
--   Affinity/Pin has when a thread is pinned. Wait: include/hft/wait_policy.hpp and the loop `run` of
--   the three stages; Wait/Yields counts how often one gives its core back.
-- Config: Parser of include/hft/config.hpp, a reader over what is left of the text; its members read
--   by recursion on fuel, and `parse_document` gives two rounds for each character. Config/Lookup has
--   `find` and the getters. Config/Print is a writer to read back from, Config/Fine and Config/Fuel have that
--   the fuel is enough, Config/Tokens and Config/RoundTrip that the reader inverts the writer.
-- Settings: apps/hft_main.cpp, the command line and the settings that it reads from the file;
--   Settings/Document is a document that holds them, its integers within the 53 bits of a double, Settings/Simulator the configuration of
--   tools/exchange_sim.cpp.
-- Histogram: Histogram of include/hft/histogram.hpp, its template arguments being fields.
--   Histogram/Index, Histogram/Edges and Histogram/Error have the arithmetic from a value to its
--   bucket and back, Histogram/Counts the array after a history of records, Histogram/Percentile
--   the percentiles of such a history.
-- Tests: concrete data, and the theorems at it.
--
-- Integers. Unsigned integers are natural numbers: counters, rate arithmetic and ring positions keep
-- their wrap-around at 2 ^ 64, level sizes saturate at 2 ^ 32 - 1 as in the source, and the narrowing
-- of a level index to `int` is written out. Signed 64-bit prices and positions are unbounded
-- integers, since their overflow is undefined in the source. Division truncates toward zero.
-- A book's `NumTicks` and a ring's capacity are parameters. The book's loops are recursion on the
-- number of levels left. The loops of the two frame readers have a round for each byte as fuel, and
-- the replay's inner loop has three rounds, of which it needs two, and the JSON reader two for each
-- character: these are shown to be enough. The feed handler's spins are its own bound.
--
-- What the functions take from outside: readings of the clock and the kill switch, what the sockets
-- received, the answers of the platform to pinning, `std::stod` and `strtol`, and the results of
-- floating-point expressions: in the constructors of the strategy, the gate and the simulated
-- exchange, and the rank of a percentile. `std::unordered_map` and `std::map` are association
-- lists. Not modelled: sockets, clock calibration, reports and floating-point queries.
pub mod Prelude
pub mod Wire
pub mod Book
pub mod Strategy
pub mod Risk
pub mod Spsc
pub mod Itch50
pub mod Replay
pub mod Gateway
pub mod Engine
pub mod Feed
pub mod Exchange
pub mod Histogram
pub mod Affinity
pub mod Wait
pub mod Config
pub mod Settings
pub mod Tests
