-- ===== src/Executor/Invariant.antt =====
-- The counters of an executor are exact at every moment, and its queue is bounded.
use cpp_chat.Base.{
  ℕ, suc, ◌+◌, ◌%◌, inl, inr, Option-cases, ◌≤◌, ◌<◌, ◌^◌, ◌≡◌, refl, Bool, true, false, Option,
  none, some, List, [], ◌∷◌, Text, arith, length, get_elem?, modify, sum_by, length-append,
  length-modify, length-set, sum_by-set, sum_by-modify,
}
use cpp_chat.Executor.{
  Doubles, Task, Worker, waiting, running, exited, Lane, Executor, push_task, drop_tasks, pending,
  submit, begin_stop, stop, wake, complete, create, empty_lanes, wake_lane, wake_at, complete_lane,
  complete_at,
}
use cpp_chat.Executor.Steps.{
  Event, submits, begins_stop, stops, wakes, completes, step, run, or_stay,
}

abbrev pub is_running : {A : Type 0} → Worker A → ℕ
is_running (running t) = 1
is_running waiting = 0
is_running exited = 0

abbrev pub busy : {A : Type 0} → List (Lane A) → ℕ
busy = sum_by (λ l. is_running l.worker)

-- `queued` and `active` count the waiting and the running tasks; the queue never passes its limit, nor
-- the high-water mark the limit; the limit is a std::size_t and there are at most sixteen lanes.
pub record Inv {D A : Type 0} (e : Executor D A) : Type 0 where
  pub queued_exact : e.metrics.queued ≡ pending e.lanes
  pub active_exact : e.metrics.active ≡ busy e.lanes
  pub within : e.metrics.queued ≤ e.queue_limit
  pub high_low : e.metrics.queued ≤ e.metrics.high_water
  pub high_limit : e.metrics.high_water ≤ e.queue_limit
  pub limit_fits : e.queue_limit < 2 ^ 64
  pub some_lane : 0 < length e.lanes
  pub few_lanes : length e.lanes ≤ 16

module _ {A : Type 0} where
  is_running-le : (w : Worker A) → is_running w ≤ 1
  is_running-le (running t) = omega arith
  is_running-le waiting = omega arith
  is_running-le exited = omega arith

  pub busy-le-length : (ls : List (Lane A)) → busy ls ≤ length ls
  busy-le-length [] = omega arith
  busy-le-length (l ∷ ls) = omega (arith, is_running-le l.worker, busy-le-length ls)

  pending-push :
      (t : Task A) (ls : List (Lane A)) (i : ℕ)
      → i < length ls
      → pending (modify ls i (push_task t)) ≡ pending ls + 1
  pending-push t =
      sum_by-modify (λ l. length l.tasks) (push_task t) 1 (λ l. length-append l.tasks (t ∷ []))

  busy-push :
      (t : Task A) (ls : List (Lane A)) (i : ℕ)
      → i < length ls
      → busy (modify ls i (push_task t)) ≡ busy ls + 0
  busy-push t = sum_by-modify (λ l. is_running l.worker) (push_task t) 0 (λ l. omega arith)

  pending-drop : (ls : List (Lane A)) → pending (drop_tasks ls) ≡ 0
  pending-drop [] = refl
  pending-drop (l ∷ ls) = omega (arith, pending-drop ls)

  busy-drop : (ls : List (Lane A)) → busy (drop_tasks ls) ≡ busy ls
  busy-drop [] = refl
  busy-drop (l ∷ ls) = omega (arith, busy-drop ls)

  length-drop_tasks : (ls : List (Lane A)) → length (drop_tasks ls) ≡ length ls
  length-drop_tasks [] = refl
  length-drop_tasks (l ∷ ls) = omega (arith, length-drop_tasks ls)

-- What `mod` gives when the divisor is not zero.
pub hash_lane-lt : (h n : ℕ) → 0 < n → h % n < n
hash_lane-lt h n p = grind arith

module _ {D A : Type 0} where
  submit-Inv :
      (hash : Text → ℕ) (key : Text) (task : Option A) (now : ℕ) (e : Executor D A)
      → Inv e
      → Inv (submit hash key task now e).0
  unfolding submit
  submit-Inv hash key none now e v = ground arith
  submit-Inv hash key (some t) now e v =
      let i = hash key % length e.lanes in
      let job : Task A = record { run = t; enqueued = now } in
      ground (
        arith,
        hash_lane-lt (hash key) (length e.lanes),
        pending-push job e.lanes i,
        busy-push job e.lanes i,
        length-modify e.lanes i (push_task job),
      )

  stop-Inv : (drain : Bool) (e : Executor D A) → Inv e → Inv (stop drain e).0
  unfolding stop
  stop-Inv true e v = ground arith
  stop-Inv false e v =
      ground (arith, pending-drop e.lanes, busy-drop e.lanes, length-drop_tasks e.lanes)

  wake_at-Inv :
      (i : ℕ) (e : Executor D A) (l : Lane A) (ts : List (Task A)) (w : Worker A)
      → get_elem? e.lanes i ≡ some l
      → l.tasks ≡ ts
      → l.worker ≡ w
      → Inv e
      → Inv (or_stay e (wake_lane i e ts w))
  wake_at-Inv i e l (t ∷ ts) waiting g tasks worker v =
      let l' : Lane A = record { tasks = ts; worker = running t } in
      ground (
        arith,
        sum_by-set (λ x. length x.tasks) e.lanes i l l' g,
        sum_by-set (λ x. is_running x.worker) e.lanes i l l' g,
        length-set e.lanes i l',
        busy-le-length e.lanes,
      )
  wake_at-Inv i e l [] waiting g tasks worker v =
      let l' : Lane A = record { tasks = []; worker = exited } in
      ground (
        arith,
        sum_by-set (λ x. length x.tasks) e.lanes i l l' g,
        sum_by-set (λ x. is_running x.worker) e.lanes i l l' g,
        length-set e.lanes i l',
      )
  wake_at-Inv i e l [] (running t) g tasks worker v = v
  wake_at-Inv i e l [] exited g tasks worker v = v
  wake_at-Inv i e l (x ∷ xs) (running t) g tasks worker v = v
  wake_at-Inv i e l (x ∷ xs) exited g tasks worker v = v

  wake-Inv : (i : ℕ) (e : Executor D A) → Inv e → Inv (or_stay e (wake i e))
  unfolding wake
  wake-Inv i e v = elim (Option-cases (get_elem? e.lanes i)) [
    | inl g ↦ rw (g, wake_at) v
    | inr (l, g) ↦ rw (g, wake_at) (wake_at-Inv i e l l.tasks l.worker g refl refl v)
  ]

lanes_of_create :
    (A : Type 0) (n : ℕ)
    → (pending (empty_lanes {A = A} n) ≡ 0)
      × (busy (empty_lanes {A = A} n) ≡ 0)
      × (length (empty_lanes {A = A} n) ≡ n)
lanes_of_create A ℕ.zero = (refl, refl, refl)
lanes_of_create A (suc n) = let h = lanes_of_create A n in omega (arith, h)

module _ (F : Doubles) {A : Type 0} where
  complete_at-Inv :
      (i started finished : ℕ) (threw : Bool) (e : Executor F.Double A) (l : Lane A) (w : Worker A)
      → get_elem? e.lanes i ≡ some l
      → l.worker ≡ w
      → Inv e
      → Inv (or_stay e (complete_lane F i started finished threw e l.tasks w))
  complete_at-Inv i started finished threw e l (running t) g worker v =
      let l' : Lane A = record { tasks = l.tasks; worker = waiting } in
      ground (
        arith,
        sum_by-set (λ x. length x.tasks) e.lanes i l l' g,
        sum_by-set (λ x. is_running x.worker) e.lanes i l l' g,
        length-set e.lanes i l',
        busy-le-length e.lanes,
      )
  complete_at-Inv i started finished threw e l waiting g worker v = v
  complete_at-Inv i started finished threw e l exited g worker v = v

  complete-Inv :
      (i started finished : ℕ) (threw : Bool) (e : Executor F.Double A)
      → Inv e
      → Inv (or_stay e (complete F i started finished threw e))
  unfolding complete
  complete-Inv i started finished threw e v = elim (Option-cases (get_elem? e.lanes i)) [
    | inl g ↦ rw (g, complete_at) v
    | inr (l, g) ↦
        rw (g, complete_at) (complete_at-Inv i started finished threw e l l.worker g refl v)
  ]

  module _ (hash : Text → ℕ) where
    pub step-Inv : (ev : Event A) (e : Executor F.Double A) → Inv e → Inv (step F hash ev e)
    unfolding step begin_stop
    step-Inv (submits key task now) e v = submit-Inv hash key task now e v
    step-Inv begins_stop e v = ground arith
    step-Inv (stops drain) e v = stop-Inv drain e v
    step-Inv (wakes i) e v = wake-Inv i e v
    step-Inv (completes i started finished threw) e v = complete-Inv i started finished threw e v

    pub run-Inv : (evs : List (Event A)) (e : Executor F.Double A) → Inv e → Inv (run F hash evs e)
    unfolding run
    run-Inv [] e v = v
    run-Inv (ev ∷ evs) e v = run-Inv evs (step F hash ev e) (step-Inv ev e v)

  pub create-Inv :
      (workers queue_limit : ℕ) {e : Executor F.Double A}
      → queue_limit < 2 ^ 64
      → create F workers queue_limit ≡ some e
      → Inv e
  unfolding create
  create-Inv workers queue_limit fits made = ground (arith, lanes_of_create A workers)

  pub run-create-Inv :
      (hash : Text → ℕ) (workers queue_limit : ℕ) (evs : List (Event A)) {e : Executor F.Double A}
      → queue_limit < 2 ^ 64
      → create F workers queue_limit ≡ some e
      → Inv (run F hash evs e)
  run-create-Inv hash workers queue_limit evs {e} fits made =
      run-Inv hash evs e (create-Inv workers queue_limit fits made)
