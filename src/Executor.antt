-- ===== src/Executor.antt =====
-- BusinessExecutor (ChatServerShared/BusinessExecutor.h and .cpp): FIFO lanes of tasks, one worker
-- thread to a lane, one mutex. Each section that holds the mutex is one function; what a worker does
-- between its sections is the environment's. The doubles of the metrics and std::hash are parameters.
pub mod Steps
pub mod Invariant
pub mod Fifo
pub mod Progress
pub mod Rest
pub mod Balance
use cpp_chat.Base.{
  ℕ, suc, ◌%◌, max, ◌≡◌, Bool, true, false, not, ◌||◌, Option, none, some, List, [], ◌∷◌, ◌++◌,
  Text, length, get_elem?, set, modify, sum_by, ltb, leb, ◌==◌, if◌then◌else◌, add64, sub64,
}

-- What the metrics use of `double` and of the clock: a difference of time points in milliseconds.
pub record Doubles : Type 1 where
  pub Double : Type 0
  pub zero_ms : Double
  pub plus : Double → Double → Double
  pub maximum : Double → Double → Double
  pub millis : ℕ → ℕ → Double

pub record Metrics (D : Type 0) : Type 0 where
  pub queued : ℕ
  pub active : ℕ
  pub high_water : ℕ
  pub completed : ℕ
  pub rejected : ℕ
  pub failed : ℕ
  pub total_wait_ms : D
  pub total_run_ms : D
  pub max_wait_ms : D
  pub max_run_ms : D

pub record Task (A : Type 0) : Type 0 where
  pub run : A
  pub enqueued : ℕ

-- The thread of a lane: waiting for its condition variable, in a task, or returned from RunLane.
pub data Worker (A : Type 0) : Type 0 where
  waiting : Worker A
  running : Task A → Worker A
  exited : Worker A

pub record Lane (A : Type 0) : Type 0 where
  pub tasks : List (Task A)
  pub worker : Worker A

pub record Executor (D A : Type 0) : Type 0 where
  pub queue_limit : ℕ
  pub lanes : List (Lane A)
  pub accepting : Bool
  pub metrics : Metrics D

abbrev pub empty_lane : {A : Type 0} → Lane A
empty_lane = record { tasks = []; worker = waiting }

abbrev pub empty_lanes : {A : Type 0} → ℕ → List (Lane A)
empty_lanes ℕ.zero = []
empty_lanes (suc n) = empty_lane ∷ empty_lanes n

abbrev pub no_metrics : (F : Doubles) → Metrics F.Double
no_metrics F = record {
  queued = 0;
  active = 0;
  high_water = 0;
  completed = 0;
  rejected = 0;
  failed = 0;
  total_wait_ms = F.zero_ms;
  total_run_ms = F.zero_ms;
  max_wait_ms = F.zero_ms;
  max_run_ms = F.zero_ms;
}

module _ {A : Type 0} where
  abbrev pub push_task : Task A → Lane A → Lane A
  push_task t l = record l { tasks = l.tasks ++ t ∷ [] }

  abbrev pub drop_tasks : List (Lane A) → List (Lane A)
  drop_tasks [] = []
  drop_tasks (l ∷ ls) = record l { tasks = [] } ∷ drop_tasks ls

  abbrev pub pending : List (Lane A) → ℕ
  pending = sum_by (λ l. length l.tasks)

module _ (F : Doubles) {A : Type 0} where
  open F use {Double}

  -- The constructor; `none` is std::invalid_argument.
  unfoldable pub create : ℕ → ℕ → Option (Executor Double A)
  create workers queue_limit =
      if workers == 0 || (ltb 16 workers || queue_limit == 0)
      then none
      else some (record {
        queue_limit = queue_limit;
        lanes = empty_lanes workers;
        accepting = true;
        metrics = no_metrics F;
      })

module _ {D A : Type 0} where
  abbrev pub reject : Executor D A → Executor D A
  reject e = record e { metrics = record e.metrics { rejected = add64 e.metrics.rejected 1 } }

  abbrev pub admit : ℕ → Task A → Executor D A → Executor D A
  admit lane t e = record e {
    lanes = modify e.lanes lane (push_task t);
    metrics = record e.metrics {
      queued = add64 e.metrics.queued 1;
      high_water = max e.metrics.high_water (add64 e.metrics.queued 1);
    };
  }

  -- Submit: an empty std::function is `none`; `hash` is std::hash.
  unfoldable pub submit : (Text → ℕ) → Text → Option A → ℕ → Executor D A → Executor D A × Bool
  submit hash key none now e = (reject e, false)
  submit hash key (some run) now e =
      if not e.accepting || leb e.queue_limit e.metrics.queued
      then (reject e, false)
      else (admit (hash key % length e.lanes) (record { run = run; enqueued = now }) e, true)

  -- BeginStop.
  unfoldable pub begin_stop : Executor D A → Executor D A
  begin_stop e = record e { accepting = false }

  -- The locked part of Stop, with the number of tasks that it discards. Stop then joins the workers:
  -- it returns in a state where `AllExited` holds.
  unfoldable pub stop : Bool → Executor D A → Executor D A × ℕ
  stop true e = (record e { accepting = false }, 0)
  stop false e =
      let discarded = pending e.lanes in
      (
        record e {
          accepting = false;
          lanes = drop_tasks e.lanes;
          metrics = record e.metrics { queued = sub64 e.metrics.queued discarded };
        },
        discarded,
      )

  -- The predicate of WaitIdleUntil.
  unfoldable pub is_idle : Executor D A → Bool
  is_idle e = if e.metrics.queued == 0 then e.metrics.active == 0 else false

  abbrev pub with_lane : Executor D A → ℕ → Lane A → Executor D A
  with_lane e i l = record e { lanes = set e.lanes i l }

  -- RunLane's first locked section, once the worker holds the mutex: it takes the front task, or
  -- returns when there is none and the executor stops. `none`: the worker goes on waiting.
  abbrev pub wake_lane : ℕ → Executor D A → List (Task A) → Worker A → Option (Executor D A)
  wake_lane i e (t ∷ rest) waiting =
      some (record (with_lane e i (record { tasks = rest; worker = running t })) {
        metrics = record e.metrics {
          queued = sub64 e.metrics.queued 1;
          active = add64 e.metrics.active 1;
        };
      })
  wake_lane i e [] waiting =
      if e.accepting then none else some (with_lane e i (record { tasks = []; worker = exited }))
  wake_lane i e tasks (running t) = none
  wake_lane i e tasks exited = none

  abbrev pub wake_at : ℕ → Executor D A → Option (Lane A) → Option (Executor D A)
  wake_at i e none = none
  wake_at i e (some l) = wake_lane i e l.tasks l.worker

  unfoldable pub wake : ℕ → Executor D A → Option (Executor D A)
  wake i e = wake_at i e (get_elem? e.lanes i)

  abbrev pub AllExited : Executor D A → Type 0
  AllExited e = (i : ℕ) (l : Lane A) → get_elem? e.lanes i ≡ some l → l.worker ≡ exited

module _ (F : Doubles) {A : Type 0} where
  open F use {Double, plus, maximum, millis}

  -- RunLane's second locked section: the worker's task returned, or threw (`threw`).
  abbrev pub complete_lane :
      ℕ → ℕ → ℕ → Bool → Executor Double A → List (Task A) → Worker A → Option (Executor Double A)
  complete_lane i started finished threw e tasks (running t) =
      let wait = millis started t.enqueued in
      let run = millis finished started in
      some (record (with_lane e i (record { tasks = tasks; worker = waiting })) {
        metrics = record e.metrics {
          active = sub64 e.metrics.active 1;
          completed = add64 e.metrics.completed 1;
          failed = add64 e.metrics.failed (if threw then 1 else 0);
          total_wait_ms = plus e.metrics.total_wait_ms wait;
          total_run_ms = plus e.metrics.total_run_ms run;
          max_wait_ms = maximum e.metrics.max_wait_ms wait;
          max_run_ms = maximum e.metrics.max_run_ms run;
        };
      })
  complete_lane i started finished threw e tasks waiting = none
  complete_lane i started finished threw e tasks exited = none

  abbrev pub complete_at :
      ℕ → ℕ → ℕ → Bool → Executor Double A → Option (Lane A) → Option (Executor Double A)
  complete_at i started finished threw e none = none
  complete_at i started finished threw e (some l) =
      complete_lane i started finished threw e l.tasks l.worker

  unfoldable pub complete : ℕ → ℕ → ℕ → Bool → Executor Double A → Option (Executor Double A)
  complete i started finished threw e = complete_at i started finished threw e (get_elem? e.lanes i)
