-- ===== src/Examples/ExecutorTests.antt =====
-- Concrete instances for the business executor: two lanes, tasks that are numbers.
use cpp_chat.Base.{
  length, Text, bytes, ℕ, zero, suc, ◌+◌, ◌-◌, ◌%◌, ◌^◌, max, ◌≡◌, refl, true, false, some, List,
  [], ◌∷◌, arith,
}
use cpp_chat.Executor.{
  empty_lane, empty_lanes, no_metrics, create, submit, begin_stop, stop, wake, AllExited, complete,
  Doubles, waiting, Executor,
}
use cpp_chat.Executor.Steps.{step, run, Event, submits, begins_stop, stops, wakes, completes}
use cpp_chat.Executor.Balance.{admits, finishes, discards, total, run-create-balance}

-- Whole milliseconds.
abbrev whole : Doubles
whole = record {
  Double = ℕ;
  zero_ms = 0;
  plus = λ a b. a + b;
  maximum = λ a b. max a b;
  millis = λ a b. a - b;
}

abbrev by_length : Text → ℕ
by_length key = length key

abbrev two_lanes : Executor ℕ ℕ
two_lanes = record {
  queue_limit = 3;
  lanes = empty_lanes 2;
  accepting = true;
  metrics = no_metrics whole;
}

two_lanes_created : create whole {A = ℕ} 2 3 ≡ some two_lanes
unfolding create
two_lanes_created = refl

abbrev history : List (Event ℕ)
history =
    submits (bytes "ab") (some 7) 1
    ∷ submits (bytes "a") (some 8) 2
    ∷ wakes 0
    ∷ submits (bytes "cd") (some 9) 3
    ∷ completes 0 4 6 true
    ∷ begins_stop
    ∷ submits (bytes "ab") (some 10) 7
    ∷ wakes 0
    ∷ []

-- Everything is run, one task at a time, and the workers return.
abbrev finishing : List (Event ℕ)
finishing =
    submits (bytes "ab") (some 7) 1
    ∷ wakes 0
    ∷ stops false
    ∷ completes 0 4 6 false
    ∷ wakes 0
    ∷ wakes 1
    ∷ []

run-create-balance_example :
    let e = run whole by_length history two_lanes in
    (e.metrics.queued
        + e.metrics.active
        + total whole by_length (finishes whole by_length) history two_lanes
        + total whole by_length (discards whole by_length) history two_lanes
      ≡ total whole by_length (admits whole by_length) history two_lanes)
    × (e.metrics.completed % 2 ^ 64
        ≡ total whole by_length (finishes whole by_length) history two_lanes % 2 ^ 64)
run-create-balance_example =
    run-create-balance whole by_length 2 3 history (omega arith) two_lanes_created

all_returned : AllExited (run whole by_length finishing two_lanes)
unfolding run step submit stop wake complete
all_returned zero l h = ground arith
all_returned (suc zero) l h = ground arith
all_returned (suc (suc i)) l h = ground arith

abbrev stopping : Executor ℕ ℕ
stopping = record two_lanes {
  accepting = false;
  lanes =
      record { tasks = record { run = 7; enqueued = 1 } ∷ []; worker = waiting } ∷ empty_lane ∷ [];
}

-- What the counters are after the history.
history_counts :
    let m = (run whole by_length history two_lanes).metrics in
    (m.queued ≡ 1) × (m.active ≡ 1) × (m.completed ≡ 1) × (m.failed ≡ 1) × (m.rejected ≡ 1)
unfolding run step submit stop begin_stop wake complete
history_counts = (refl, refl, refl, refl, refl)
