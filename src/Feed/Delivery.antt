-- ===== src/Feed/Delivery.antt =====
-- What a datagram leaves in the queue and in the counters.
use high_frequency_trading_e.Prelude.{
  ℕ, ◌+◌, ◌%◌, ◌^◌, ◌<◌, ◌≡◌, refl, sym, ap, ◌∙◌, Bool, true, false, List, [], ◌∷◌, ◌++◌,
  append-nil, append_assoc, arith, ◌==◌, if◌then◌else◌, length, length-append, get_or, take, drop,
}
use high_frequency_trading_e.Wire.{ItchMessage, MdEvent}
use high_frequency_trading_e.Wire.Codec.{
  encode_all, AllFit, AllFit-take, msg_size, read_datagram-encode_all, take-encode_all,
  length-frame,
}
use high_frequency_trading_e.Feed.{
  OutQueue, FeedHandler, push_spinning, max_spins, event, count_event, deliver, read_buffer,
  poll_once,
}
use high_frequency_trading_e.Feed.Tries.{Refused, Outcome, Refused-accepted, push_spinning-Outcome}

module _ (out : OutQueue) where
  -- What becomes of the messages, one after another, from a queue to a queue. The event of a message
  -- is kept when a try takes it after fewer than 65536 refusals, and is left out, and counts as lost,
  -- when the queue refuses it 65536 times.
  pub data Chosen (arrival : ℕ)
      : out.Queue → List ItchMessage → List MdEvent → ℕ → out.Queue → Type 0 where
    nothing : {q : out.Queue} → Chosen arrival q [] [] 0 q
    kept :
        (m : ItchMessage) {ms : List ItchMessage} {evs : List MdEvent} {lost n : ℕ}
        {q before q' : out.Queue}
        → n < 65_536
        → Refused out (record { msg = m; arrival_tsc = arrival }) n q before
        → (out.push (out.consume before) (record { msg = m; arrival_tsc = arrival })).1 ≡ true
        → Chosen arrival
            (out.push (out.consume before) (record { msg = m; arrival_tsc = arrival })).0
            ms
            evs
            lost
            q'
        → Chosen arrival q (m ∷ ms) ((record { msg = m; arrival_tsc = arrival }) ∷ evs) lost q'
    left_out :
        (m : ItchMessage) {ms : List ItchMessage} {evs : List MdEvent} {lost : ℕ}
        {q after q' : out.Queue}
        → Refused out (record { msg = m; arrival_tsc = arrival }) 65_536 q after
        → Chosen arrival after ms evs lost q'
        → Chosen arrival q (m ∷ ms) evs (lost + 1) q'

  -- What a datagram with the messages `ms` leaves: the events that the queue took follow those that
  -- it had, and the counters went up by what was read, taken and dropped.
  pub record Delivered (h : FeedHandler) (q : out.Queue) (arrival : ℕ) (ms : List ItchMessage)
      (r : FeedHandler × out.Queue × ℕ) : Type 1 where
    pub events : List MdEvent
    pub lost : ℕ
    pub chosen : Chosen arrival q ms events lost r.1
    pub queued : out.accepted r.1 ≡ out.accepted q ++ events
    pub enqueued : r.2 ≡ length events
    pub received : r.0.received ≡ (h.received + length ms) % 2 ^ 64
    pub pushed : r.0.pushed ≡ (h.pushed + length events) % 2 ^ 64
    pub dropped : r.0.dropped ≡ (h.dropped + lost) % 2 ^ 64

  -- The counters are within their type.
  abbrev Counts64 : FeedHandler → Type 0
  Counts64 h = (h.received < 2 ^ 64) × (h.pushed < 2 ^ 64) × (h.dropped < 2 ^ 64)

  count_event-Counts64 :
      (h : FeedHandler) (b : Bool) (ns : ℕ) → Counts64 h → Counts64 (count_event h b ns)
  unfolding count_event
  count_event-Counts64 h true ns (r, p, d) = (omega arith, omega arith, d)
  count_event-Counts64 h false ns (r, p, d) = (omega arith, p, omega arith)

  -- One message before the others.
  message-Delivered :
      (h : FeedHandler) (arrival : ℕ) (m : ItchMessage) (ms : List ItchMessage) (ns : ℕ)
      {q q' : out.Queue} {b : Bool} (r : FeedHandler × out.Queue × ℕ)
      → Outcome out max_spins (event m arrival) q q' b
      → Delivered (count_event h b ns) q' arrival ms r
      → Delivered h q arrival (m ∷ ms) (r.0, r.1, if b then r.2 + 1 else r.2)
  unfolding count_event
  message-Delivered h arrival m ms ns {q} r (Outcome.taken n before few refused ok) k = record {
    events = event m arrival ∷ k.events;
    lost = k.lost;
    chosen = Chosen.kept m few refused ok k.chosen;
    queued =
        k.queued
        ∙ ap (λ l. l ++ k.events)
            (out.taken (out.consume before) (event m arrival) ok
              ∙ ap (λ l. l ++ event m arrival ∷ [])
                  (out.consumed before ∙ Refused-accepted out refused))
        ∙ append_assoc (out.accepted q) (event m arrival ∷ []) k.events;
    enqueued = omega (arith, k.enqueued);
    received = omega (arith, k.received);
    pushed = omega (arith, k.pushed);
    dropped = omega (arith, k.dropped);
  }
  message-Delivered h arrival m ms ns r (Outcome.given_up refused) k = record {
    events = k.events;
    lost = k.lost + 1;
    chosen = Chosen.left_out m refused k.chosen;
    queued = k.queued ∙ ap (λ l. l ++ k.events) (Refused-accepted out refused);
    enqueued = k.enqueued;
    received = omega (arith, k.received);
    pushed = omega (arith, k.pushed);
    dropped = omega (arith, k.dropped);
  }

  deliver-Delivered :
      (h : FeedHandler) (q : out.Queue) (arrival : ℕ) (ms : List ItchMessage) (latencies : List ℕ)
      → Counts64 h
      → Delivered h q arrival ms (deliver out h q arrival ms latencies)
  unfolding deliver
  deliver-Delivered h q arrival [] latencies (r, p, d) = record {
    events = [];
    lost = 0;
    chosen = Chosen.nothing;
    queued = sym (append-nil (out.accepted q));
    enqueued = refl;
    received = omega (arith, r);
    pushed = omega (arith, p);
    dropped = omega (arith, d);
  }
  deliver-Delivered h q arrival (m ∷ ms) latencies small =
      let sent = push_spinning out max_spins q (event m arrival) in
      let ns = get_or latencies 0 0 in
      message-Delivered h arrival m ms ns _
        (push_spinning-Outcome out max_spins q (event m arrival))
        (deliver-Delivered (count_event h sent.1 ns) sent.0 arrival ms (drop 1 latencies)
          (count_event-Counts64 h sent.1 ns small))

  read_buffer-Delivered :
      (h : FeedHandler) (q : out.Queue) (arrival : ℕ) (ms : List ItchMessage)
      (rest latencies : List ℕ)
      → AllFit ms
      → length rest < msg_size
      → Counts64 h
      → Delivered h q arrival ms (read_buffer out h q (encode_all ms ++ rest) arrival latencies)
  unfolding read_buffer deliver
  read_buffer-Delivered h q arrival [] [] latencies fit short small =
      deliver-Delivered h q arrival [] latencies small
  read_buffer-Delivered h q arrival [] (b ∷ rest) latencies fit short small =
      let e = read_datagram-encode_all [] (b ∷ rest) fit short in
      let some_byte : (length (b ∷ rest) == 0) ≡ false = ground arith in
      rw (some_byte, e) (deliver-Delivered h q arrival [] latencies small)
  read_buffer-Delivered h q arrival (m ∷ ms) rest latencies fit short small =
      let e = read_datagram-encode_all (m ∷ ms) rest fit short in
      let some_byte : (length (encode_all (m ∷ ms) ++ rest) == 0) ≡ false =
        ground (arith, length-frame m (encode_all ms), length-append (encode_all (m ∷ ms)) rest) in
      rw (some_byte, e) (deliver-Delivered h q arrival (m ∷ ms) latencies small)

  -- Of a datagram of some messages, and a last frame that is not whole, the first 64 messages are
  -- read, or all when they are fewer: what follows them is neither queued nor counted. The queue takes
  -- the events of some of the messages read, in their order and behind what it had: an event is left
  -- out only when the queue refused it 65536 times in a row, and it is taken at the first try that is
  -- not refused. The three counters go up by the messages read, taken and left out, modulo 2 ^ 64, and
  -- the result is the number taken. The fields of the messages and the counters are within their types.
  pub poll_once-Delivered :
      (h : FeedHandler) (q : out.Queue) (arrival : ℕ) (ms : List ItchMessage)
      (rest latencies : List ℕ)
      → AllFit ms
      → length rest < msg_size
      → h.received < 2 ^ 64
      → h.pushed < 2 ^ 64
      → h.dropped < 2 ^ 64
      → Delivered h q arrival
          (take 64 ms)
          (poll_once out h q (encode_all ms ++ rest) arrival latencies)
  unfolding poll_once
  poll_once-Delivered h q arrival ms rest latencies fit short r p d =
      let (tail, shorter, e) = take-encode_all 64 ms rest short in
      rw e (
        read_buffer-Delivered h q arrival (take 64 ms) tail latencies (AllFit-take 64 ms fit)
          shorter (r, p, d))
