-- ===== src/Spsc/Machine/Alone.antt =====
-- `push` and `pop` while the other thread stands still: each is one run of steps.
use high_frequency_trading_e.Prelude.{
  ℕ, ◌+◌, ◌≤◌, ◌≡◌, refl, sym, ap, ◌∙◌, inl, inr, Bool, true, false, List, [], ◌∷◌, ◌++◌, Option,
  none, some, arith, length, get_elem?, get_elem?_past, get_elem?_within, append-nil, Bool-cases,
  ltb, if◌then◌else◌, subst,
}
use high_frequency_trading_e.Spsc.{
  SpscQueue, slot, capacity, shows_room, shows_empty, push, pop, reload_consumer, reload_producer,
  write_slot, publish_push, publish_pop,
}
use high_frequency_trading_e.Spsc.Machine.{
  Machine, Pushing, Popping, Step, Reach, start, load_consumer, load_producer, written, published,
  taken,
}
use high_frequency_trading_e.Spsc.Machine.Invariant.{Inv, room_left, full_count, empty_count}
use high_frequency_trading_e.Spsc.Machine.Steps.{Reach-Inv, Run-Inv, consumer_has, oldest_in_slot}

module _ {A : Type 0} where
  abbrev pub to_list : Option A → List A
  to_list none = []
  to_list (some x) = x ∷ []

  -- What a push alone leaves: the queue that `push` returns, and the value published if there was
  -- room.
  pub record Pushed (m : Machine A) (x : A) (r : SpscQueue A × Bool) (m' : Machine A) : Type 0 where
    pub run : Reach m m'
    pub queue : m'.q ≡ r.0
    pub answer : r.1 ≡ ltb (length m.pushed) (length m.popped + capacity m.q)
    pub contents : m'.pushed ≡ (if r.1 then m.pushed ++ x ∷ [] else m.pushed)
    pub taken_same : m'.popped ≡ m.popped
    pub idle_again : m'.prod ≡ Pushing.idle

  module _ (m : Machine A) (x : A) (v : Inv m) (at : m.prod ≡ Pushing.idle) where
    abbrev loaded : Machine A
    loaded = load_consumer (record m { prod = Pushing.reloading x }) x (length m.popped)

    loaded-q : loaded.q ≡ reload_consumer m.q
    loaded-q = ap (λ c. record (m.q) { cached_consumer_pos = c }) (sym v.at_popped)

    to_loaded : shows_room m.q ≡ false → Reach m loaded
    to_loaded no_room =
        Reach.later
          (Reach.later (Reach.later Reach.here (Step.begin_push x at))
            (Step.cache_full x refl no_room))
          (Step.reload_push x (length m.popped) refl v.popped_seen (omega arith))

    push_cached :
        shows_room m.q ≡ true
        → Pushed m x (publish_push (write_slot m.q x), true) (published (written m x) x)
    push_cached room = record {
      run =
          Reach.later
            (Reach.later
              (Reach.later (Reach.later Reach.here (Step.begin_push x at))
                (Step.cache_room x refl room))
              (Step.write x refl))
            (Step.publish x refl);
      queue = refl;
      answer = let left = room_left v room in ground (arith, left, v.popped_seen);
      contents = refl;
      taken_same = refl;
      idle_again = refl;
    }

    push_loaded :
        shows_room m.q ≡ false
        → shows_room (reload_consumer m.q) ≡ true
        → Pushed m x
            (publish_push (write_slot (reload_consumer m.q) x), true)
            (published (written loaded x) x)
    push_loaded no_room room =
        let found : shows_room loaded.q ≡ true =
          subst (λ q. shows_room q ≡ true) (sym loaded-q) room in
        let left = room_left (Run-Inv v (to_loaded no_room)) found in
        record {
          run =
              Reach.later
                (Reach.later (Reach.later (to_loaded no_room) (Step.found_room x refl found))
                  (Step.write x refl))
                (Step.publish x refl);
          queue = ap (λ q. publish_push (write_slot q x)) loaded-q;
          answer = ground (arith, left);
          contents = refl;
          taken_same = refl;
          idle_again = refl;
        }

    push_full :
        shows_room m.q ≡ false
        → shows_room (reload_consumer m.q) ≡ false
        → Pushed m x (reload_consumer m.q, false) (record loaded { prod = Pushing.idle })
    push_full no_room full =
        let found : shows_room loaded.q ≡ false =
          subst (λ q. shows_room q ≡ false) (sym loaded-q) full in
        let level = full_count (Run-Inv v (to_loaded no_room)) found in
        record {
          run = Reach.later (to_loaded no_room) (Step.full x refl found);
          queue = loaded-q;
          answer = ground (arith, level);
          contents = refl;
          taken_same = refl;
          idle_again = refl;
        }

    push-Pushed : (m' : Machine A) × Pushed m x (push m.q x) m'
    unfolding push
    push-Pushed = elim (Bool-cases (shows_room m.q)) [
      | inl room ↦ (published (written m x) x, rw room (push_cached room))
      | inr no_room ↦ elim (Bool-cases (shows_room (reload_consumer m.q))) [
        | inl room ↦ (published (written loaded x) x, rw (no_room, room) (push_loaded no_room room))
        | inr full ↦
            (record loaded { prod = Pushing.idle }, rw (no_room, full) (push_full no_room full))
      ]
    ]

  -- What a pop alone leaves: the queue that `pop` returns, and the oldest value taken if there was
  -- one.
  pub record Popped (m : Machine A) (r : SpscQueue A × Option A) (m' : Machine A) : Type 0 where
    pub run : Reach m m'
    pub queue : m'.q ≡ r.0
    pub answer : r.1 ≡ get_elem? m.pushed (length m.popped)
    pub contents : m'.popped ≡ m.popped ++ to_list r.1
    pub pushed_same : m'.pushed ≡ m.pushed
    pub idle_again : m'.cons ≡ Popping.idle

  module _ (m : Machine A) (v : Inv m) (at : m.cons ≡ Popping.idle) where
    abbrev reloaded : Machine A
    reloaded = load_producer (record m { cons = Popping.reloading }) (length m.pushed)

    reloaded-q : reloaded.q ≡ reload_producer m.q
    reloaded-q = ap (λ c. record (m.q) { cached_producer_pos = c }) (sym v.at_pushed)

    to_reloaded : shows_empty m.q ≡ true → Reach m reloaded
    to_reloaded none_here =
        Reach.later
          (Reach.later (Reach.later Reach.here (Step.begin_pop at))
            (Step.cache_empty refl none_here))
          (Step.reload_pop (length m.pushed) refl v.pushed_seen (omega arith))

  -- The end of a pop that has found a value.
  finish_pop :
      (m n : Machine A)
      → Reach m n
      → Inv n
      → n.pushed ≡ m.pushed
      → n.popped ≡ m.popped
      → n.cons ≡ Popping.reading
      → (m' : Machine A) × Popped m
          (publish_pop n.q, get_elem? n.q.buf (slot n.q n.q.consumer_pos))
          m'
  finish_pop m n r v same_pushed same_popped at =
      let waiting = consumer_has v at in
      let (x, e) =
        get_elem?_within n.pushed (length n.popped) (omega (arith, waiting, v.pushed_seen)) in
      let found = oldest_in_slot v waiting ∙ e in
      (
        taken (record n { cons = Popping.publishing x }) x,
        record {
          run = Reach.later (Reach.later r (Step.read x at found)) (Step.release x refl);
          queue = refl;
          answer =
              oldest_in_slot v waiting
              ∙ ap (λ l. get_elem? l (length n.popped)) same_pushed
              ∙ ap (λ l. get_elem? m.pushed (length l)) same_popped;
          contents =
              ap (λ l. l ++ x ∷ []) same_popped ∙ ap (λ o. m.popped ++ to_list o) (sym found);
          pushed_same = same_pushed;
          idle_again = refl;
        },
      )

  module _ (m : Machine A) (v : Inv m) (at : m.cons ≡ Popping.idle) where
    pop_cached :
        shows_empty m.q ≡ false
        → (m' : Machine A) × Popped m
            (publish_pop m.q, get_elem? m.q.buf (slot m.q m.q.consumer_pos))
            m'
    pop_cached some_here =
        let r =
          Reach.later (Reach.later Reach.here (Step.begin_pop at))
            (Step.cache_some refl some_here) in
        finish_pop m (record m { cons = Popping.reading }) r (Run-Inv v r) refl refl refl

    pop_reloaded :
        shows_empty m.q ≡ true
        → shows_empty (reload_producer m.q) ≡ false
        → (m' : Machine A) × Popped m
            (
              publish_pop (reload_producer m.q),
              get_elem? m.q.buf (slot (reload_producer m.q) m.q.consumer_pos),
            )
            m'
    pop_reloaded none_here some_here =
        let found : shows_empty (reloaded m v at).q ≡ false =
          subst (λ q. shows_empty q ≡ false) (sym (reloaded-q m v at)) some_here in
        let r = Reach.later (to_reloaded m v at none_here) (Step.found_some refl found) in
        let (m', p) =
          finish_pop m (record (reloaded m v at) { cons = Popping.reading }) r (Run-Inv v r) refl
            refl refl in
        (
          m',
          subst (λ q. Popped m (publish_pop q, get_elem? q.buf (slot q q.consumer_pos)) m')
              (reloaded-q m v at) p,
        )

    pop_empty :
        shows_empty m.q ≡ true
        → shows_empty (reload_producer m.q) ≡ true
        → Popped m (reload_producer m.q, none) (record (reloaded m v at) { cons = Popping.idle })
    pop_empty none_here still =
        let found : shows_empty (reloaded m v at).q ≡ true =
          subst (λ q. shows_empty q ≡ true) (sym (reloaded-q m v at)) still in
        let level = empty_count (Run-Inv v (to_reloaded m v at none_here)) found in
        record {
          run = Reach.later (to_reloaded m v at none_here) (Step.empty refl found);
          queue = reloaded-q m v at;
          answer = sym (get_elem?_past m.pushed (length m.popped) (omega (arith, level)));
          contents = sym (append-nil m.popped);
          pushed_same = refl;
          idle_again = refl;
        }

    pop-Popped : (m' : Machine A) × Popped m (pop m.q) m'
    unfolding pop
    pop-Popped = elim (Bool-cases (shows_empty m.q)) [
      | inr some_here ↦ rw some_here (pop_cached some_here)
      | inl none_here ↦ elim (Bool-cases (shows_empty (reload_producer m.q))) [
        | inr some_here ↦ rw (none_here, some_here) (pop_reloaded none_here some_here)
        | inl still ↦ (
          record (reloaded m v at) { cons = Popping.idle },
          rw (none_here, still) (pop_empty none_here still),
        )
      ]
    ]

-- In every reachable state in which the producer is idle, `push` is a run of its steps: it succeeds
-- exactly when fewer values than the capacity wait to be taken, and then publishes its value; if not,
-- it publishes nothing.
pub push_alone :
    {A : Type 0} (bits : ℕ) (init : A) {m : Machine A} (x : A)
    → bits ≤ 63
    → Reach (start bits init) m
    → m.prod ≡ Pushing.idle
    → (m' : Machine A) × Pushed m x (push m.q x) m'
push_alone bits init {m} x small r at = push-Pushed m x (Reach-Inv bits init small r) at

-- In every reachable state in which the consumer is idle, `pop` is a run of its steps: it takes the
-- oldest value that is published and not taken, and returns none exactly when there is no such value.
pub pop_alone :
    {A : Type 0} (bits : ℕ) (init : A) {m : Machine A}
    → bits ≤ 63
    → Reach (start bits init) m
    → m.cons ≡ Popping.idle
    → (m' : Machine A) × Popped m (pop m.q) m'
pop_alone bits init {m} small r at = pop-Popped m (Reach-Inv bits init small r) at
