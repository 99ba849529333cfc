-- ===== src/Executor/Fifo.antt =====
-- A lane is a queue: the tasks that its worker takes are the tasks that it was given, in order.
use cpp_chat.Base.{
  ◌==◌, if◌then◌else◌, length, get_elem?, Text, ℕ, ◌%◌, ◌≡◌, Bool, true, false, Option, none, some,
  List, [], ◌∷◌, ◌++◌,
}
use cpp_chat.Executor.{submit, Doubles, Task, Worker, waiting, running, exited, Lane, Executor}
use cpp_chat.Executor.Steps.{step, run, Event, submits, begins_stop, stops, wakes, completes}

module _ {A : Type 0} where
  abbrev pub tasks_of : Option (Lane A) → List (Task A)
  tasks_of none = []
  tasks_of (some l) = l.tasks

  abbrev pub started_by : Worker A → Worker A → List (Task A)
  started_by waiting (running t) = t ∷ []
  started_by waiting waiting = []
  started_by waiting exited = []
  started_by (running u) w = []
  started_by exited w = []

  abbrev pub started_of : Option (Lane A) → Option (Lane A) → List (Task A)
  started_of (some l) (some m) = started_by l.worker m.worker
  started_of (some l) none = []
  started_of none m = []

  -- A lane before and after one event of the executor.
  abbrev Fifo : Option (Lane A) → Option (Lane A) → List (Task A) → Type 0
  Fifo o o' new = started_of o o' ++ tasks_of o' ≡ tasks_of o ++ new

module _ {D A : Type 0} where
  -- The tasks that wait in lane i, oldest first.
  abbrev pub tasks_at : ℕ → Executor D A → List (Task A)
  tasks_at i e = tasks_of (get_elem? e.lanes i)

  -- The task, if any, that the worker of lane i begins between two states.
  abbrev pub started : ℕ → Executor D A → Executor D A → List (Task A)
  started i e e' = started_of (get_elem? e.lanes i) (get_elem? e'.lanes i)

  -- The task, if any, that an event adds to lane i: a submission that returns true.
  abbrev pub admitted : (Text → ℕ) → ℕ → Event A → Executor D A → List (Task A)
  admitted hash i (submits key (some t) now) e =
      if (submit hash key (some t) now e).1
      then if hash key % length e.lanes == i then record { run = t; enqueued = now } ∷ [] else []
      else []
  admitted hash i (submits key none now) e = []
  admitted hash i begins_stop e = []
  admitted hash i (stops drain) e = []
  admitted hash i (wakes j) e = []
  admitted hash i (completes j s f t) e = []

  LaneFifo : ℕ → List (Task A) → Executor D A → Executor D A → Type 0
  LaneFifo i new e e' = Fifo (get_elem? e.lanes i) (get_elem? e'.lanes i) new

-- An event other than a discarding stop.
abbrev pub keeps_tasks : {A : Type 0} → Event A → Bool
keeps_tasks (stops false) = false
keeps_tasks (stops true) = true
keeps_tasks begins_stop = true
keeps_tasks (submits key task now) = true
keeps_tasks (wakes i) = true
keeps_tasks (completes i s f threw) = true

module _ (F : Doubles) {A : Type 0} where
  module _ (hash : Text → ℕ) (i : ℕ) where
    -- The tasks that lane i's worker begins during a run, and those that the run adds to lane i.
    pub started_in : List (Event A) → Executor F.Double A → List (Task A)
    started_in [] e = []
    started_in (ev ∷ evs) e = let e' = step F hash ev e in started i e e' ++ started_in evs e'

    pub admitted_in : List (Event A) → Executor F.Double A → List (Task A)
    admitted_in [] e = []
    admitted_in (ev ∷ evs) e = admitted hash i ev e ++ admitted_in evs (step F hash ev e)
