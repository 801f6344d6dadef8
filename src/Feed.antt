-- ===== src/Feed.antt =====
-- include/hft/feed_handler.hpp: the thread that reads the feed. The queue behind it is an interface,
-- so that any queue and any consumer of it serves; the datagram that the socket has received, the
-- readings of the clock and the nanoseconds that the latencies come to are arguments.
pub mod Delivery
pub mod Ring
pub mod Tries
use high_frequency_trading_e.Prelude.{
  ℕ, zero, suc, ◌+◌, ◌*◌, ◌%◌, ◌^◌, ◌≡◌, Bool, true, false, List, [], ◌∷◌, ◌++◌, ◌==◌,
  if◌then◌else◌, length, get_or, take, drop,
}
use high_frequency_trading_e.Wire.{ItchMessage, MdEvent}
use high_frequency_trading_e.Wire.Codec.{msg_size, read_datagram}
use high_frequency_trading_e.Histogram.{Histogram, record_value}

-- A queue as its producer sees it: `push` tells whether it took the event. `accepted` is all that it
-- ever took, oldest first; what the consumer does before a try of the producer takes nothing away.
pub record OutQueue : Type 1 where
  pub Queue : Type 0
  pub push : Queue → MdEvent → Queue × Bool
  pub consume : Queue → Queue
  pub accepted : Queue → List MdEvent
  pub taken :
      (q : Queue) (ev : MdEvent)
      → (push q ev).1 ≡ true
      → accepted (push q ev).0 ≡ accepted q ++ ev ∷ []
  pub refused :
      (q : Queue) (ev : MdEvent) → (push q ev).1 ≡ false → accepted (push q ev).0 ≡ accepted q
  pub consumed : (q : Queue) → accepted (consume q) ≡ accepted q

pub record FeedHandler : Type 0 where
  pub latency : Histogram
  pub received : ℕ
  pub pushed : ℕ
  pub dropped : ℕ

abbrev pub inc64 : ℕ → ℕ
inc64 n = (n + 1) % 2 ^ 64

abbrev pub max_spins : ℕ
max_spins = 2 ^ 16

-- `kMaxMsgsPerDatagram` and `kBufBytes`
abbrev pub max_msgs_per_datagram : ℕ
max_msgs_per_datagram = 64

abbrev pub buf_bytes : ℕ
buf_bytes = max_msgs_per_datagram * msg_size

abbrev pub event : ItchMessage → ℕ → MdEvent
event m arrival = record { msg = m; arrival_tsc = arrival }

-- What the outcome of a push counts; `ns` is the latency of the event.
unfoldable pub count_event : FeedHandler → Bool → ℕ → FeedHandler
count_event h true ns = record h {
  latency = record_value h.latency ns;
  received = inc64 h.received;
  pushed = inc64 h.pushed;
}
count_event h false ns = record h { received = inc64 h.received; dropped = inc64 h.dropped }

module _ (out : OutQueue) where
  -- `push_with_backpressure`: the first argument is the spins left.
  unfoldable pub push_spinning : ℕ → out.Queue → MdEvent → out.Queue × Bool
  push_spinning zero q ev = (q, false)
  push_spinning (suc spins) q ev =
      let tried = out.push (out.consume q) ev in
      let rest = push_spinning spins tried.0 ev in if tried.1 then tried else rest

  -- The loop of `poll_once` over the messages of a datagram, with a latency for each. The number is
  -- `enqueued`.
  unfoldable pub deliver :
      FeedHandler → out.Queue → ℕ → List ItchMessage → List ℕ → FeedHandler × out.Queue × ℕ
  deliver h q arrival [] latencies = (h, q, 0)
  deliver h q arrival (m ∷ ms) latencies =
      let sent = push_spinning max_spins q (event m arrival) in
      let rest =
        deliver (count_event h sent.1 (get_or latencies 0 0)) sent.0 arrival ms
          (drop 1 latencies) in
      (rest.0, rest.1, if sent.1 then rest.2 + 1 else rest.2)

  -- `poll_once` once the bytes are in `buf_`; none, from an empty datagram or no datagram, leave
  -- everything as it is.
  unfoldable pub read_buffer :
      FeedHandler → out.Queue → List ℕ → ℕ → List ℕ → FeedHandler × out.Queue × ℕ
  read_buffer h q bytes arrival latencies =
      if length bytes == 0 then (h, q, 0) else deliver h q arrival (read_datagram bytes) latencies

  -- The socket fills the buffer from the front and drops what is left of the datagram.
  unfoldable pub poll_once :
      FeedHandler → out.Queue → List ℕ → ℕ → List ℕ → FeedHandler × out.Queue × ℕ
  poll_once h q datagram arrival latencies =
      read_buffer h q (take buf_bytes datagram) arrival latencies
