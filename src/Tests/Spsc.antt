-- ===== src/Tests/Spsc.antt =====
-- Instances of the ring's theorems: a ring of two numbers.
use high_frequency_trading_e.Prelude.{
  ℕ, ◌+◌, ◌≤◌, ◌≡◌, ◌≢◌, refl, true, false, ◌++◌, arith, length, drop,
}
use high_frequency_trading_e.Spsc.{new, slot, capacity, push, pop, shows_room, shows_empty}
use high_frequency_trading_e.Spsc.Machine.{
  Machine, Pushing, Popping, Step, Reach, start, load_consumer, load_producer, written, published,
}
use high_frequency_trading_e.Spsc.Machine.Order.{fifo_lem, slots_apart}
use high_frequency_trading_e.Spsc.Machine.Alone.{Pushed, Popped, push_alone, pop_alone}

abbrev ring : Machine ℕ
ring = start 1 0

abbrev write_five : Machine ℕ
write_five = record (record ring { prod = Pushing.started 5 }) { prod = Pushing.writing 5 }

-- 5 is published.
abbrev one_in : Machine ℕ
one_in = published (written write_five 5) 5

one_in-Reach : Reach ring one_in
unfolding new
one_in-Reach =
    Reach.later
      (Reach.later
        (Reach.later (Reach.later Reach.here (Step.begin_push 5 refl))
          (Step.cache_room 5 refl refl))
        (Step.write 5 refl))
      (Step.publish 5 refl)

abbrev write_six : Machine ℕ
write_six = record (record one_in { prod = Pushing.started 6 }) { prod = Pushing.writing 6 }

write_six-Reach : Reach ring write_six
unfolding new
write_six-Reach =
    Reach.later (Reach.later one_in-Reach (Step.begin_push 6 refl)) (Step.cache_room 6 refl refl)

-- The producer is about to write 6 while the consumer is about to read 5.
abbrev crossing : Machine ℕ
crossing = record (load_producer (record write_six { cons = Popping.reloading }) 1) {
  cons = Popping.reading;
}

crossing-Reach : Reach ring crossing
unfolding new
crossing-Reach =
    Reach.later
      (Reach.later
        (Reach.later (Reach.later write_six-Reach (Step.begin_pop refl))
          (Step.cache_empty refl refl))
        (Step.reload_pop 1 refl (omega arith) (omega arith)))
      (Step.found_some refl refl)

fifo_lem_example :
    (crossing.pushed ≡ crossing.popped ++ drop (length crossing.popped) crossing.pushed)
    × (length crossing.pushed ≤ length crossing.popped + capacity crossing.q)
fifo_lem_example = fifo_lem 1 0 (omega arith) crossing-Reach

slots_apart_example :
    slot crossing.q crossing.q.producer_pos ≢ slot crossing.q crossing.q.consumer_pos
slots_apart_example = slots_apart 1 0 6 (omega arith) crossing-Reach refl refl

abbrev two_in : Machine ℕ
two_in = published (written write_six 6) 6

-- 7 finds no room.
abbrev turned_away : Machine ℕ
turned_away = load_consumer (record two_in { prod = Pushing.reloading 7 }) 7 0

turned_away-Reach : Reach ring turned_away
unfolding new
turned_away-Reach =
    Reach.later
      (Reach.later
        (Reach.later
          (Reach.later (Reach.later write_six-Reach (Step.write 6 refl)) (Step.publish 6 refl))
          (Step.begin_push 7 refl))
        (Step.cache_full 7 refl refl))
      (Step.reload_push 7 0 refl (omega arith) (omega arith))

turned_away-full : shows_room turned_away.q ≡ false
unfolding new
turned_away-full = refl

abbrev nothing_in : Machine ℕ
nothing_in = load_producer (record ring { cons = Popping.reloading }) 0

nothing_in-Reach : Reach ring nothing_in
unfolding new
nothing_in-Reach =
    Reach.later
      (Reach.later (Reach.later Reach.here (Step.begin_pop refl)) (Step.cache_empty refl refl))
      (Step.reload_pop 0 refl (omega arith) (omega arith))

nothing_in-empty : shows_empty nothing_in.q ≡ true
unfolding new
nothing_in-empty = refl

push_alone_example : (m : Machine ℕ) × Pushed one_in 6 (push one_in.q 6) m
push_alone_example = push_alone 1 0 6 (omega arith) one_in-Reach refl

pop_alone_example : (m : Machine ℕ) × Popped one_in (pop one_in.q) m
pop_alone_example = pop_alone 1 0 (omega arith) one_in-Reach refl
