-- ===== src/Exchange/Frames.antt =====
-- What a receiver reads from the datagrams of the feed, and what still waits in the buffer.
use high_frequency_trading_e.Prelude.{
  ℕ, suc, ◌+◌, ◌-◌, ◌*◌, ◌≤◌, ◌<◌, ◌≡◌, refl, sym, ap, ap₂, ◌∙◌, subst, inl, inr, List, [], ◌∷◌,
  ◌++◌, append-nil, append_assoc, arith, ltb, Bool-cases, length, take, drop, length-append,
  length-drop, take-length-append,
}
use high_frequency_trading_e.Prelude.Int.{ℤ, pos_part, neg_part}
use high_frequency_trading_e.Wire.{ItchMessage}
use high_frequency_trading_e.Wire.Codec.{
  encode_message, encode_all, AllFit, Fits, msg_size, read_datagram, read_datagram-encode_all,
  length-frame,
}
use high_frequency_trading_e.Exchange.{SimExchange, append, write_at, flush}

-- The messages of some datagrams, in the order of their arrival.
unfoldable pub receive : List (List ℕ) → List ItchMessage
receive [] = []
receive (d ∷ ds) = read_datagram d ++ receive ds

abbrev pub AllWithin : ℕ → List (List ℕ) → Type 0
AllWithin n [] = Unit {0}
AllWithin n (d ∷ ds) = (length d ≤ n) × AllWithin n ds

receive-append :
    (ds : List (List ℕ)) (d : List ℕ) → receive (ds ++ d ∷ []) ≡ receive ds ++ read_datagram d
unfolding receive
receive-append [] d = append-nil (read_datagram d)
receive-append (x ∷ ds) d =
    ap (◌++◌ (read_datagram x)) (receive-append ds d)
    ∙ sym (append_assoc (read_datagram x) (receive ds) (read_datagram d))

AllWithin-append :
    (n : ℕ) (ds : List (List ℕ)) (d : List ℕ)
    → AllWithin n ds
    → length d ≤ n
    → AllWithin n (ds ++ d ∷ [])
AllWithin-append n [] d all h = (h, tt)
AllWithin-append n (x ∷ ds) d all h = (all.0, AllWithin-append n ds d all.1 h)

encode_all-append :
    (ms : List ItchMessage) (m : ItchMessage)
    → encode_all (ms ++ m ∷ []) ≡ encode_all ms ++ encode_message m
encode_all-append [] m = append-nil (encode_message m)
encode_all-append (x ∷ ms) m =
    ap (◌++◌ (encode_message x)) (encode_all-append ms m)
    ∙ sym (append_assoc (encode_message x) (encode_all ms) (encode_message m))

AllFit-append :
    (ms : List ItchMessage) (m : ItchMessage) → AllFit ms → Fits m → AllFit (ms ++ m ∷ [])
AllFit-append [] m all f = (f, tt)
AllFit-append (x ∷ ms) m all f = (all.0, AllFit-append ms m all.1 f)

length-encode_all : (ms : List ItchMessage) → length (encode_all ms) ≡ length ms * msg_size
length-encode_all [] = refl
length-encode_all (m ∷ ms) = omega (arith, length-frame m (encode_all ms), length-encode_all ms)

drop_past : (xs ys : List ℕ) (n : ℕ) → drop (length xs + n) (xs ++ ys) ≡ drop n ys
drop_past [] ys n = let e : 0 + n ≡ n = omega arith in ap (λ k. drop k ys) e
drop_past (x ∷ xs) ys n =
    let e : length (x ∷ xs) + n ≡ suc (length xs + n) = omega arith in
    ap (λ k. drop k (x ∷ xs ++ ys)) e ∙ drop_past xs ys n

-- A buffer that begins with `front`, written to right behind it.
write_at_end :
    (front rest bytes : List ℕ)
    → write_at (front ++ rest) (length front) bytes ≡ (front ++ bytes) ++ drop (length bytes) rest
unfolding write_at
write_at_end front rest bytes =
    rw (take-length-append front rest, drop_past front rest (length bytes)) refl

-- The datagrams that were sent and the messages in the buffer make up `log`. No datagram has more
-- messages than the batch, and the buffer has room.
pub record Framed (tx : List (List ℕ)) (dgram : List ℕ) (msgs : ℕ) (batch : ℤ)
    (log : List ItchMessage) : Type 0 where
  pub delivered : List ItchMessage
  pub pending : List ItchMessage
  pub rest : List ℕ
  pub whole : log ≡ delivered ++ pending
  pub arrived : receive tx ≡ delivered
  pub within : AllWithin (pos_part batch * msg_size) tx
  pub buffered : dgram ≡ encode_all pending ++ rest
  pub sized : length dgram ≡ 40 * msg_size
  pub counted : msgs ≡ length pending
  pub fit : AllFit pending
  pub bounded : msgs ≤ pos_part batch
  pub positive : neg_part batch ≡ 0
  pub small : pos_part batch ≤ 40

abbrev pub FramedOf : SimExchange → List ItchMessage → Type 0
FramedOf s log = Framed s.feed_tx s.dgram s.dgram_msgs s.batch log

pub append-Framed :
    (s : SimExchange) (m : ItchMessage) {log : List ItchMessage}
    → FramedOf s log
    → Fits m
    → s.dgram_msgs < pos_part s.batch
    → FramedOf (append s m) (log ++ m ∷ [])
unfolding append
append-Framed s m {log} k f room =
    let len : length (encode_all k.pending) ≡ s.dgram_msgs * msg_size =
      omega (arith, length-encode_all k.pending, k.counted) in
    let frame : length (encode_message m) ≡ msg_size =
      ap length (sym (append-nil (encode_message m))) ∙ length-frame m [] in
    let left : length k.rest ≡ 40 * msg_size - s.dgram_msgs * msg_size =
      omega
        (arith, ap length k.buffered, length-append (encode_all k.pending) k.rest, k.sized, len) in
    let written : write_at s.dgram (s.dgram_msgs * msg_size) (encode_message m)
        ≡ encode_all (k.pending ++ m ∷ []) ++ drop (length (encode_message m)) k.rest =
      ap₂ (λ b o. write_at b o (encode_message m)) k.buffered (sym len)
      ∙ write_at_end (encode_all k.pending) k.rest (encode_message m)
      ∙ ap (λ x. x ++ drop (length (encode_message m)) k.rest)
          (sym (encode_all-append k.pending m)) in
    record {
      delivered = k.delivered;
      pending = k.pending ++ m ∷ [];
      rest = drop (length (encode_message m)) k.rest;
      whole = ap (λ l. l ++ m ∷ []) k.whole ∙ append_assoc k.delivered k.pending (m ∷ []);
      arrived = k.arrived;
      within = k.within;
      buffered = written;
      sized =
          ap length written
          ∙ omega (
            arith,
            left,
            room,
            k.small,
            len,
            frame,
            ap length (encode_all-append k.pending m),
            length-append (encode_all k.pending) (encode_message m),
            length-append (encode_all (k.pending ++ m ∷ []))
                (drop (length (encode_message m)) k.rest),
            length-drop (length (encode_message m)) k.rest,
          );
      counted = omega (arith, k.counted, length-append k.pending (m ∷ []));
      fit = AllFit-append k.pending m k.fit f;
      bounded = omega (arith, room);
      positive = k.positive;
      small = k.small;
    }

pub flush-Framed :
    (s : SimExchange) {log : List ItchMessage}
    → FramedOf s log
    → FramedOf (flush s) log × ((flush s).dgram_msgs ≡ 0)
unfolding flush
flush-Framed s {log} k = elim (Bool-cases (ltb 0 s.dgram_msgs)) [
  | inr none_left ↦ rw none_left (k, ground arith)
  | inl some_left ↦ rw some_left (
    record {
      delivered = k.delivered ++ k.pending;
      pending = [];
      rest = s.dgram;
      whole = k.whole ∙ sym (append-nil (k.delivered ++ k.pending));
      arrived = receive-append s.feed_tx _ ∙ ap₂ ◌++◌ k.arrived (ap read_datagram taken ∙ read);
      within = AllWithin-append _ s.feed_tx _ k.within (
          subst (λ d. length d ≤ pos_part s.batch * msg_size) (sym taken)
            (omega (arith, len, k.bounded)));
      buffered = refl;
      sized = k.sized;
      counted = refl;
      fit = tt;
      bounded = omega arith;
      positive = k.positive;
      small = k.small;
    },
    refl,
  )
]
  where
    len : length (encode_all k.pending) ≡ s.dgram_msgs * msg_size
    len = omega (arith, length-encode_all k.pending, k.counted)

    taken : take (s.dgram_msgs * msg_size) s.dgram ≡ encode_all k.pending
    taken = ap₂ take (sym len) k.buffered ∙ take-length-append (encode_all k.pending) k.rest

    read : read_datagram (encode_all k.pending) ≡ k.pending
    read =
        ap read_datagram (sym (append-nil (encode_all k.pending)))
        ∙ read_datagram-encode_all k.pending [] k.fit (omega arith)
