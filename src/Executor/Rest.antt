-- ===== src/Executor/Rest.antt =====
-- What a returned worker leaves behind: an empty lane of an executor that takes no more tasks. So when
-- all workers are gone, nothing waits and nothing runs.
use cpp_chat.Base.{
  leb, Bool-cases, Option-cases, length, get_elem?, All, All-set, All-modify, Text, ℕ, suc, ◌%◌,
  ◌≡◌, refl, inl, inr, Bool, true, false, not, ◌||◌, Option, none, some, List, [], ◌∷◌, arith,
}
use cpp_chat.Executor.{
  empty_lanes, push_task, drop_tasks, pending, create, submit, begin_stop, stop, wake_lane, wake_at,
  wake, complete_lane, complete_at, complete, Doubles, Task, Worker, waiting, running, exited, Lane,
  Executor,
}
use cpp_chat.Executor.Steps.{
  or_stay, step, run, Event, submits, begins_stop, stops, wakes, completes,
}
use cpp_chat.Executor.Invariant.{busy}

-- A worker that has returned left an empty lane, and the executor takes no more tasks.
abbrev pub LaneRest : {A : Type 0} → Bool → Lane A → Type 0
LaneRest accepting l = l.worker ≡ exited → (l.tasks ≡ []) × (accepting ≡ false)

abbrev pub Rested : {D A : Type 0} → Executor D A → Type 0
Rested e = All (LaneRest e.accepting) e.lanes

module _ {A : Type 0} where
  -- Rested is kept: a worker returns only from an empty lane of a stopping executor, where nothing
  -- is admitted after it.
  rest_off : (ls : List (Lane A)) (a : Bool) → All (LaneRest a) ls → All (LaneRest false) ls
  rest_off [] a r = tt
  rest_off (l ∷ ls) a r = ((λ x. ((r.0 x).0, refl)), rest_off ls a r.1)

  rest_drop :
      (ls : List (Lane A)) (a : Bool) → All (LaneRest a) ls → All (LaneRest false) (drop_tasks ls)
  rest_drop [] a r = tt
  rest_drop (l ∷ ls) a r = ((λ x. (refl, refl)), rest_drop ls a r.1)

  rest_push :
      (t : Task A) (a : Bool) → a ≡ true → (l : Lane A) → LaneRest a l → LaneRest a (push_task t l)
  rest_push t a on l r x = let h = (r x).1 in cc

  -- With every worker gone, nothing waits and nothing runs.
  pub gone :
      (a : Bool) (ls : List (Lane A))
      → All (LaneRest a) ls
      → ((i : ℕ) (l : Lane A) → get_elem? ls i ≡ some l → l.worker ≡ exited)
      → (pending ls ≡ 0) × (busy ls ≡ 0)
  gone a [] r h = (refl, refl)
  gone a (l ∷ ls) r h =
      let here = h 0 l refl in
      let rest = gone a ls r.1 (λ i x. h (suc i) x) in
      (rw (r.0 here).0 (omega (arith, rest.0)), rw here (omega (arith, rest.1)))

module _ {D A : Type 0} where
  submit-Rested :
      (hash : Text → ℕ) (key : Text) (task : Option A) (now : ℕ) (e : Executor D A)
      → Rested e
      → Rested (submit hash key task now e).0
  unfolding submit
  submit-Rested hash key none now e r = r
  submit-Rested hash key (some t) now e r =
      elim (Bool-cases (not e.accepting || leb e.queue_limit e.metrics.queued)) [
        | inl full ↦ rw full r
        | inr room ↦
            let job : Task A = record { run = t; enqueued = now } in
            rw room (
              All-modify (LaneRest e.accepting) (push_task job) e.lanes (hash key % length e.lanes)
                (rest_push job e.accepting (ground arith)) r)
      ]

  wake_lane-Rested :
      (i : ℕ) (e : Executor D A) (ts : List (Task A)) (w : Worker A)
      → Rested e
      → Rested (or_stay e (wake_lane i e ts w))
  wake_lane-Rested i e (t ∷ ts) waiting r =
      All-set (LaneRest e.accepting) e.lanes i _ r (λ x. absurd (cc))
  wake_lane-Rested i e [] waiting r = elim (Bool-cases e.accepting) [
    | inl on ↦ rw on (rw on at r)
    | inr off ↦ rw off (All-set (LaneRest false) e.lanes i _ (rw off at r) (λ x. (refl, refl)))
  ]
  wake_lane-Rested i e [] (running t) r = r
  wake_lane-Rested i e [] exited r = r
  wake_lane-Rested i e (x ∷ xs) (running t) r = r
  wake_lane-Rested i e (x ∷ xs) exited r = r

  wake-Rested : (i : ℕ) (e : Executor D A) → Rested e → Rested (or_stay e (wake i e))
  unfolding wake
  wake-Rested i e r = elim (Option-cases (get_elem? e.lanes i)) [
    | inl g ↦ rw (g, wake_at) r
    | inr (l, g) ↦ rw (g, wake_at) (wake_lane-Rested i e l.tasks l.worker r)
  ]

empty-rest : (A : Type 0) (n : ℕ) → All (LaneRest {A = A} true) (empty_lanes n)
empty-rest A ℕ.zero = tt
empty-rest A (suc n) = ((λ x. absurd (cc)), empty-rest A n)

module _ (F : Doubles) {A : Type 0} where
  complete_lane-Rested :
      (i s f : ℕ) (threw : Bool) (e : Executor F.Double A) (ts : List (Task A)) (w : Worker A)
      → Rested e
      → Rested (or_stay e (complete_lane F i s f threw e ts w))
  complete_lane-Rested i s f threw e ts (running t) r =
      All-set (LaneRest e.accepting) e.lanes i _ r (λ x. absurd (cc))
  complete_lane-Rested i s f threw e ts waiting r = r
  complete_lane-Rested i s f threw e ts exited r = r

  complete-Rested :
      (i s f : ℕ) (threw : Bool) (e : Executor F.Double A)
      → Rested e
      → Rested (or_stay e (complete F i s f threw e))
  unfolding complete
  complete-Rested i s f threw e r = elim (Option-cases (get_elem? e.lanes i)) [
    | inl g ↦ rw (g, complete_at) r
    | inr (l, g) ↦ rw (g, complete_at) (complete_lane-Rested i s f threw e l.tasks l.worker r)
  ]

  step-Rested :
      (hash : Text → ℕ) (ev : Event A) (e : Executor F.Double A)
      → Rested e
      → Rested (step F hash ev e)
  unfolding step begin_stop stop
  step-Rested hash (submits key task now) e r = submit-Rested hash key task now e r
  step-Rested hash begins_stop e r = rest_off e.lanes e.accepting r
  step-Rested hash (stops true) e r = rest_off e.lanes e.accepting r
  step-Rested hash (stops false) e r = rest_drop e.lanes e.accepting r
  step-Rested hash (wakes i) e r = wake-Rested i e r
  step-Rested hash (completes i s f threw) e r = complete-Rested i s f threw e r

  pub run-Rested :
      (hash : Text → ℕ) (evs : List (Event A)) (e : Executor F.Double A)
      → Rested e
      → Rested (run F hash evs e)
  unfolding run
  run-Rested hash [] e r = r
  run-Rested hash (ev ∷ evs) e r = run-Rested hash evs (step F hash ev e) (step-Rested hash ev e r)

  pub create-Rested :
      (workers queue_limit : ℕ) {e : Executor F.Double A}
      → create F workers queue_limit ≡ some e
      → Rested e
  unfolding create
  create-Rested workers queue_limit {e} made =
      let made_lanes : e.lanes ≡ empty_lanes workers = ground arith in
      let made_on : e.accepting ≡ true = ground arith in
      rw (made_lanes, made_on) (empty-rest A workers)
