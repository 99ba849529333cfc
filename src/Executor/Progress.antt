-- ===== src/Executor/Progress.antt =====
-- A stopping executor comes to its end: every worker that has not returned can take its next locked
-- section, and each section that a worker takes brings the end nearer.
use cpp_chat.Base.{length, sum_by, ℕ, ◌+◌, ◌*◌, ◌<◌, ◌≡◌, ◌⊎◌, Bool, some, List}
use cpp_chat.Executor.{wake, complete, Doubles, Worker, waiting, running, exited, Lane, Executor}

-- What an executor still has to do before its workers are gone.
abbrev worker_work : {A : Type 0} → Worker A → ℕ
worker_work (running t) = 2
worker_work waiting = 1
worker_work exited = 0

abbrev pub work : {A : Type 0} → List (Lane A) → ℕ
work = sum_by (λ l. 2 * length l.tasks + worker_work l.worker)

module _ (F : Doubles) {A : Type 0} where
  -- The next section of lane i's worker: it wakes if it waits, and completes its task if it runs one.
  abbrev Advances : ℕ → ℕ → ℕ → Bool → Executor F.Double A → Executor F.Double A → Type 0
  Advances i s f threw e e' =
      ((wake i e ≡ some e') ⊎ (complete F i s f threw e ≡ some e')) × (work e'.lanes < work e.lanes)
