-- ===== src/Exchange/Ready.antt =====
-- What `emit` and `flush` change, and what they leave for the next message.
use high_frequency_trading_e.Prelude.{
  ℕ, ◌*◌, ◌≤◌, ◌<◌, ◌≡◌, refl, sym, ap, ◌∙◌, inl, inr, false, List, [], ◌∷◌, ◌++◌, append-nil,
  arith, ltb, Bool-cases, length,
}
use high_frequency_trading_e.Prelude.Int.{ℤ, pos_part}
use high_frequency_trading_e.Wire.{ItchMessage, MsgType, Side}
use high_frequency_trading_e.Wire.Codec.{Fits, msg_size}
use high_frequency_trading_e.Exchange.{SimExchange, message, append, flush, emit, is_full}
use high_frequency_trading_e.Exchange.Frames.{
  receive, AllWithin, FramedOf, append-Framed, flush-Framed,
}

-- What `emit` leaves alone.
pub emit_fields :
    (s : SimExchange) (now : ℕ) (type : MsgType) (side : Side) (px : ℤ) (size : ℕ)
    → let s' = emit s now type side px size in
      s' ≡ record (append s (message s now type side px size)) {
        feed_tx = s'.feed_tx;
        dgram_msgs = s'.dgram_msgs;
      }
unfolding emit flush
emit_fields s now type side px size =
    elim (Bool-cases (is_full (append s (message s now type side px size)))) [
      | inr some_room ↦ rw some_room refl
      | inl full ↦
          elim (Bool-cases (ltb 0 (append s (message s now type side px size)).dgram_msgs)) [
            | inl some_left ↦ rw (full, some_left) refl
            | inr none_left ↦ rw (full, none_left) refl
          ]
    ]

pub flush_fields :
    (s : SimExchange)
    → flush s ≡ record s { feed_tx = (flush s).feed_tx; dgram_msgs = (flush s).dgram_msgs }
unfolding flush
flush_fields s = elim (Bool-cases (ltb 0 s.dgram_msgs)) [
  | inl some_left ↦ rw some_left refl
  | inr none_left ↦ rw none_left refl
]

-- Between two messages the buffer has room.
pub record Ready (s : SimExchange) (log : List ItchMessage) : Type 0 where
  pub framed : FramedOf s log
  pub room : s.dgram_msgs < pos_part s.batch

flush-batch : (s : SimExchange) → (flush s).batch ≡ s.batch
flush-batch s = ap (λ x. x.batch) (flush_fields s)

pub flush-Ready :
    (s : SimExchange) {log : List ItchMessage}
    → FramedOf s log
    → 1 ≤ pos_part s.batch
    → Ready (flush s) log
flush-Ready s k positive =
    let (framed, none_left) = flush-Framed s k in
    record {
      framed = framed;
      room = omega (arith, none_left, positive, ap pos_part (flush-batch s));
    }

append-positive :
    (s : SimExchange) (m : ItchMessage)
    → s.dgram_msgs < pos_part s.batch
    → 1 ≤ pos_part (append s m).batch
unfolding append
append-positive s m h = omega arith

pub emit-Ready :
    (s : SimExchange) (now : ℕ) (type : MsgType) (side : Side) (px : ℤ) (size : ℕ)
    {log : List ItchMessage}
    → Ready s log
    → Fits (message s now type side px size)
    → Ready (emit s now type side px size) (log ++ message s now type side px size ∷ [])
unfolding emit
emit-Ready s now type side px size {log} k f =
    let m = message s now type side px size in
    let added = append-Framed s m k.framed f k.room in
    elim (Bool-cases (is_full (append s m))) [
      | inr some_room ↦
          rw some_room (record { framed = added; room = below (append s m) added some_room })
      | inl full ↦ rw full (flush-Ready (append s m) added (append-positive s m k.room))
    ]
  where
    below :
        (x : SimExchange) {l : List ItchMessage}
        → FramedOf x l
        → is_full x ≡ false
        → x.dgram_msgs < pos_part x.batch
    below x fr e = let whole_batch = fr.positive in ground arith

nil_of_length : (ms : List ItchMessage) → 0 ≡ length ms → ms ≡ []
nil_of_length [] e = refl
nil_of_length (m ∷ ms) e = absurd (omega (arith, e))

-- With nothing in the buffer, everything has been sent.
pub all_arrived :
    (s : SimExchange) {log : List ItchMessage}
    → FramedOf s log
    → s.dgram_msgs ≡ 0
    → receive s.feed_tx ≡ log
all_arrived s k none_left =
    k.arrived
    ∙ sym (append-nil k.delivered)
    ∙ ap (◌++◌ k.delivered) (sym (nil_of_length k.pending (sym none_left ∙ k.counted)))
    ∙ sym k.whole

AllWithin-mono : (n m : ℕ) (ds : List (List ℕ)) → n ≤ m → AllWithin n ds → AllWithin m ds
AllWithin-mono n m [] le all = tt
AllWithin-mono n m (d ∷ ds) le all = (omega (arith, all.0), AllWithin-mono n m ds le all.1)

pub within_buffer :
    (s : SimExchange) {log : List ItchMessage}
    → FramedOf s log
    → AllWithin (40 * msg_size) s.feed_tx
within_buffer s k =
    AllWithin-mono (pos_part s.batch * msg_size) (40 * msg_size) s.feed_tx (omega (arith, k.small))
      k.within
