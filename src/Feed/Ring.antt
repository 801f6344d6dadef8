-- ===== src/Feed/Ring.antt =====
-- The ring of include/hft/spsc_queue.hpp as the queue behind the feed handler, with a consumer that
-- takes at most one event before each try of the producer.
use high_frequency_trading_e.Prelude.{refl, ap, Bool, List, [], ◌∷◌, ◌++◌, if◌then◌else◌}
use high_frequency_trading_e.Wire.{MdEvent}
use high_frequency_trading_e.Spsc.{SpscQueue, push, pop}
use high_frequency_trading_e.Feed.{OutQueue}

-- The ring, and what it took.
pub record Ring : Type 0 where
  pub queue : SpscQueue MdEvent
  pub log : List MdEvent

abbrev pub push_logged : Ring → MdEvent → Ring × Bool
push_logged r ev =
    let done = push r.queue ev in
    (record { queue = done.0; log = if done.1 then r.log ++ ev ∷ [] else r.log }, done.1)

abbrev pub ring_queue : OutQueue
ring_queue = record {
  Queue = Ring;
  push = push_logged;
  consume = λ r. record r { queue = (pop r.queue).0 };
  accepted = λ r. r.log;
  taken = λ r ev ok. ap (λ b. if b then r.log ++ ev ∷ [] else r.log) ok;
  refused = λ r ev full. ap (λ b. if b then r.log ++ ev ∷ [] else r.log) full;
  consumed = λ r. refl;
}
