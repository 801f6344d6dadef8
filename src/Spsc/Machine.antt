-- ===== src/Spsc/Machine.antt =====
-- The producer's and the consumer's thread on one ring, in every interleaving of their memory
-- accesses: `emplace_from` and `pop` cut at each load and store of shared memory. The counts of what
-- has been published are kept in full beside the 64-bit registers. An acquire load of the other
-- side's position may return any value that the position has had since the last one that this side
-- read: each position is written by one thread alone.
pub mod Invariant
pub mod Steps
pub mod Order
pub mod Alone
use high_frequency_trading_e.Prelude.{
  ℕ, zero, suc, ◌+◌, ◌^◌, ◌%◌, ◌≤◌, ◌<◌, ◌≡◌, Bool, true, false, List, [], ◌∷◌, ◌++◌, Option, none,
  some, length, get_elem?,
}
use high_frequency_trading_e.Spsc.{
  SpscQueue, new, slot, mod64, shows_room, shows_empty, write_slot, publish_push, publish_pop,
}

-- Where the producer stands within `push(v)`.
pub data Pushing (A : Type 0) : Type 0 where
  idle : Pushing A
  started reloading checking writing publishing : A → Pushing A

-- Where the consumer stands within `pop`; `publishing` holds the value read from the slot.
pub data Popping (A : Type 0) : Type 0 where
  idle started reloading checking reading : Popping A
  publishing : A → Popping A

pub record Machine (A : Type 0) : Type 0 where
  pub q : SpscQueue A
  pub prod : Pushing A
  pub cons : Popping A
  -- all values published and all values taken, oldest first
  pub pushed : List A
  pub popped : List A
  -- the counts that the cached positions stand for
  pub seen_popped : ℕ
  pub seen_pushed : ℕ

abbrev pub start : {A : Type 0} → ℕ → A → Machine A
start bits init = record {
  q = new bits init;
  prod = Pushing.idle;
  cons = Popping.idle;
  pushed = [];
  popped = [];
  seen_popped = 0;
  seen_pushed = 0;
}

module _ {A : Type 0} where
  -- the acquire loads, which leave a position that stands for the count `n` in the cache
  abbrev pub load_consumer : Machine A → A → ℕ → Machine A
  load_consumer m v n = record m {
    q = record (m.q) { cached_consumer_pos = n % mod64 };
    prod = Pushing.checking v;
    seen_popped = n;
  }

  abbrev pub load_producer : Machine A → ℕ → Machine A
  load_producer m n = record m {
    q = record (m.q) { cached_producer_pos = n % mod64 };
    cons = Popping.checking;
    seen_pushed = n;
  }

  abbrev pub written : Machine A → A → Machine A
  written m v = record m { q = write_slot m.q v; prod = Pushing.publishing v }

  abbrev pub published : Machine A → A → Machine A
  published m v = record m {
    q = publish_push m.q;
    prod = Pushing.idle;
    pushed = m.pushed ++ v ∷ [];
  }

  abbrev pub taken : Machine A → A → Machine A
  taken m x = record m { q = publish_pop m.q; cons = Popping.idle; popped = m.popped ++ x ∷ [] }

  pub data Step (m : Machine A) : Machine A → Type 0 where
    begin_push : (v : A) → m.prod ≡ Pushing.idle → Step m (record m { prod = Pushing.started v })
    cache_room :
        (v : A)
        → m.prod ≡ Pushing.started v
        → shows_room m.q ≡ true
        → Step m (record m { prod = Pushing.writing v })
    cache_full :
        (v : A)
        → m.prod ≡ Pushing.started v
        → shows_room m.q ≡ false
        → Step m (record m { prod = Pushing.reloading v })
    reload_push :
        (v : A) (n : ℕ)
        → m.prod ≡ Pushing.reloading v
        → m.seen_popped ≤ n
        → n ≤ length m.popped
        → Step m (load_consumer m v n)
    found_room :
        (v : A)
        → m.prod ≡ Pushing.checking v
        → shows_room m.q ≡ true
        → Step m (record m { prod = Pushing.writing v })
    full :
        (v : A)
        → m.prod ≡ Pushing.checking v
        → shows_room m.q ≡ false
        → Step m (record m { prod = Pushing.idle })
    write : (v : A) → m.prod ≡ Pushing.writing v → Step m (written m v)
    publish : (v : A) → m.prod ≡ Pushing.publishing v → Step m (published m v)
    begin_pop : m.cons ≡ Popping.idle → Step m (record m { cons = Popping.started })
    cache_some :
        m.cons ≡ Popping.started
        → shows_empty m.q ≡ false
        → Step m (record m { cons = Popping.reading })
    cache_empty :
        m.cons ≡ Popping.started
        → shows_empty m.q ≡ true
        → Step m (record m { cons = Popping.reloading })
    reload_pop :
        (n : ℕ)
        → m.cons ≡ Popping.reloading
        → m.seen_pushed ≤ n
        → n ≤ length m.pushed
        → Step m (load_producer m n)
    found_some :
        m.cons ≡ Popping.checking
        → shows_empty m.q ≡ false
        → Step m (record m { cons = Popping.reading })
    empty :
        m.cons ≡ Popping.checking
        → shows_empty m.q ≡ true
        → Step m (record m { cons = Popping.idle })
    read :
        (x : A)
        → m.cons ≡ Popping.reading
        → get_elem? m.q.buf (slot m.q m.q.consumer_pos) ≡ some x
        → Step m (record m { cons = Popping.publishing x })
    release : (x : A) → m.cons ≡ Popping.publishing x → Step m (taken m x)

pub data Reach {A : Type 0} (first : Machine A) : Machine A → Type 0 where
  here : Reach first first
  later : {x y : Machine A} → Reach first x → Step x y → Reach first y
