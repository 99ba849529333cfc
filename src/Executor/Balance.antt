-- ===== src/Executor/Balance.antt =====
-- No accepted task is lost: what was admitted is finished, discarded by a stop, running or waiting, and
-- when a stop returns, finished or discarded.
use cpp_chat.Base.{
  Option-cases, length, get_elem?, sum_by-set, Text, ℕ, ◌+◌, ◌%◌, ◌^◌, ◌<◌, ◌≡◌, refl, inl, inr,
  Bool, true, false, Option, none, some, List, [], ◌∷◌, arith,
}
use cpp_chat.Executor.{
  create, submit, begin_stop, stop, wake_lane, wake_at, wake, AllExited, complete_lane, complete_at,
  complete, Doubles, Task, Worker, waiting, running, exited, Lane, Executor,
}
use cpp_chat.Executor.Steps.{
  or_stay, step, run, Event, submits, begins_stop, stops, wakes, completes,
}
use cpp_chat.Executor.Invariant.{
  is_running, busy-le-length, step-Inv, create-Inv, run-create-Inv, Inv,
}
use cpp_chat.Executor.Rest.{gone, run-Rested, create-Rested}

abbrev pub count_true : Bool → ℕ
count_true true = 1
count_true false = 0

abbrev pub count_some {ℓ} : {A : Type ℓ} → Option A → ℕ
count_some none = 0
count_some (some a) = 1

module _ (F : Doubles) {A : Type 0} (hash : Text → ℕ) where
  -- How many tasks an event admits (Submit returned true), finishes and discards.
  abbrev pub admits : Event A → Executor F.Double A → ℕ
  admits (submits key task now) e = count_true (submit hash key task now e).1
  admits begins_stop e = 0
  admits (stops drain) e = 0
  admits (wakes i) e = 0
  admits (completes i s f threw) e = 0

  abbrev pub finishes : Event A → Executor F.Double A → ℕ
  finishes (completes i s f threw) e = count_some (complete F i s f threw e)
  finishes (submits key task now) e = 0
  finishes begins_stop e = 0
  finishes (stops drain) e = 0
  finishes (wakes i) e = 0

  abbrev pub discards : Event A → Executor F.Double A → ℕ
  discards (stops drain) e = (stop drain e).1
  discards (submits key task now) e = 0
  discards begins_stop e = 0
  discards (wakes i) e = 0
  discards (completes i s f threw) e = 0

  pub total : (Event A → Executor F.Double A → ℕ) → List (Event A) → Executor F.Double A → ℕ
  total count [] e = 0
  total count (ev ∷ evs) e = count ev e + total count evs (step F hash ev e)

  abbrev load : Executor F.Double A → ℕ
  load e = e.metrics.queued + e.metrics.active

  -- One event.
  record Balanced (ev : Event A) (e : Executor F.Double A) : Type 0 where
    balance : load (step F hash ev e) + finishes ev e + discards ev e ≡ load e + admits ev e
    counted :
        (step F hash ev e).metrics.completed % 2 ^ 64
        ≡ (e.metrics.completed + finishes ev e) % 2 ^ 64

  submit-Balanced :
      (key : Text) (task : Option A) (now : ℕ) (e : Executor F.Double A)
      → Inv e
      → Balanced (submits key task now) e
  unfolding step submit
  submit-Balanced key none now e v = ground arith
  submit-Balanced key (some t) now e v = ground arith

  stop-Balanced : (drain : Bool) (e : Executor F.Double A) → Inv e → Balanced (stops drain) e
  unfolding step stop
  stop-Balanced true e v = ground arith
  stop-Balanced false e v = ground arith

  wake_lane-load :
      (i : ℕ) (e : Executor F.Double A) (l : Lane A) (ts : List (Task A)) (w : Worker A)
      → get_elem? e.lanes i ≡ some l
      → l.tasks ≡ ts
      → l.worker ≡ w
      → Inv e
      → let e' = or_stay e (wake_lane i e ts w) in
        (load e' ≡ load e) × (e'.metrics.completed ≡ e.metrics.completed)
  wake_lane-load i e l (t ∷ ts) waiting g et ew v =
      let l' : Lane A = record { tasks = ts; worker = running t } in
      ground (
        arith,
        sum_by-set (λ x. length x.tasks) e.lanes i l l' g,
        sum_by-set (λ x. is_running x.worker) e.lanes i l l' g,
        busy-le-length e.lanes,
      )
  wake_lane-load i e l [] waiting g et ew v = ground arith
  wake_lane-load i e l [] (running t) g et ew v = (refl, refl)
  wake_lane-load i e l [] exited g et ew v = (refl, refl)
  wake_lane-load i e l (x ∷ xs) (running t) g et ew v = (refl, refl)
  wake_lane-load i e l (x ∷ xs) exited g et ew v = (refl, refl)

  wake-load :
      (i : ℕ) (e : Executor F.Double A)
      → Inv e
      → let e' = or_stay e (wake i e) in
        (load e' ≡ load e) × (e'.metrics.completed ≡ e.metrics.completed)
  unfolding wake
  wake-load i e v = elim (Option-cases (get_elem? e.lanes i)) [
    | inl g ↦ rw (g, wake_at) (refl, refl)
    | inr (l, g) ↦ rw (g, wake_at) (wake_lane-load i e l l.tasks l.worker g refl refl v)
  ]

  wake-Balanced : (i : ℕ) (e : Executor F.Double A) → Inv e → Balanced (wakes i) e
  unfolding step
  wake-Balanced i e v = let h = wake-load i e v in ground arith

  complete_lane-load :
      (i s f : ℕ) (threw : Bool) (e : Executor F.Double A) (l : Lane A) (w : Worker A)
      → get_elem? e.lanes i ≡ some l
      → l.worker ≡ w
      → Inv e
      → let o = complete_lane F i s f threw e l.tasks w in
        let e' = or_stay e o in
        (load e' + count_some o ≡ load e)
        × (e'.metrics.completed % 2 ^ 64 ≡ (e.metrics.completed + count_some o) % 2 ^ 64)
  complete_lane-load i s f threw e l (running t) g ew v =
      let l' : Lane A = record { tasks = l.tasks; worker = waiting } in
      ground (arith, sum_by-set (λ x. is_running x.worker) e.lanes i l l' g, busy-le-length e.lanes)
  complete_lane-load i s f threw e l waiting g ew v = omega arith
  complete_lane-load i s f threw e l exited g ew v = omega arith

  complete-Balanced :
      (i s f : ℕ) (threw : Bool) (e : Executor F.Double A)
      → Inv e
      → Balanced (completes i s f threw) e
  unfolding step complete
  complete-Balanced i s f threw e v = elim (Option-cases (get_elem? e.lanes i)) [
    | inl g ↦ record {
      balance = rw (g, complete_at) (omega arith);
      counted = rw (g, complete_at) (omega arith);
    }
    | inr (l, g) ↦
        let h = complete_lane-load i s f threw e l l.worker g refl v in
        record {
          balance = rw (g, complete_at) (omega (arith, h.0));
          counted = rw (g, complete_at) h.1;
        }
  ]

  step-Balanced : (ev : Event A) (e : Executor F.Double A) → Inv e → Balanced ev e
  step-Balanced (submits key task now) e v = submit-Balanced key task now e v
  step-Balanced begins_stop e v = unfold step begin_stop in ground arith
  step-Balanced (stops drain) e v = stop-Balanced drain e v
  step-Balanced (wakes i) e v = wake-Balanced i e v
  step-Balanced (completes i s f threw) e v = complete-Balanced i s f threw e v

  -- What a run admits is waiting, running, finished or discarded at its end, beside what was there.
  run-load :
      (evs : List (Event A)) (e : Executor F.Double A)
      → Inv e
      → load (run F hash evs e) + total finishes evs e + total discards evs e
        ≡ load e + total admits evs e
  unfolding run total
  run-load [] e v = omega arith
  run-load (ev ∷ evs) e v =
      let e' = step F hash ev e in
      omega (arith, (step-Balanced ev e v).balance, run-load evs e' (step-Inv F hash ev e v))

  run-completed :
      (evs : List (Event A)) (e : Executor F.Double A)
      → Inv e
      → (run F hash evs e).metrics.completed % 2 ^ 64
        ≡ (e.metrics.completed + total finishes evs e) % 2 ^ 64
  unfolding run total
  run-completed [] e v = omega arith
  run-completed (ev ∷ evs) e v =
      let e' = step F hash ev e in
      omega (arith, (step-Balanced ev e v).counted, run-completed evs e' (step-Inv F hash ev e v))

  create-empty :
      (workers queue_limit : ℕ) {e : Executor F.Double A}
      → create F workers queue_limit ≡ some e
      → (load e ≡ 0) × (e.metrics.completed ≡ 0)
  unfolding create
  create-empty workers queue_limit made = ground arith

  -- From a constructed executor, after any interleaving: the tasks that Submit accepted are as many as
  -- those that are waiting, running, finished or discarded by a stop, and `completed` is the number of
  -- finished tasks modulo 2 ^ 64.
  pub run-create-balance :
      (workers queue_limit : ℕ) (evs : List (Event A)) {e : Executor F.Double A}
      → queue_limit < 2 ^ 64
      → create F workers queue_limit ≡ some e
      → let e' = run F hash evs e in
        (e'.metrics.queued + e'.metrics.active + total finishes evs e + total discards evs e
          ≡ total admits evs e)
        × (e'.metrics.completed % 2 ^ 64 ≡ total finishes evs e % 2 ^ 64)
  run-create-balance workers queue_limit evs {e} fits made =
      let v = create-Inv F workers queue_limit fits made in
      let z = create-empty workers queue_limit made in
      (omega (arith, z.0, run-load evs e v), omega (arith, z.1, run-completed evs e v))

  -- When every worker has returned, as when Stop returns, nothing waits and nothing runs, so each
  -- task that Submit accepted was finished, or discarded by a stop.
  pub exited_balance :
      (workers queue_limit : ℕ) (evs : List (Event A)) {e : Executor F.Double A}
      → queue_limit < 2 ^ 64
      → create F workers queue_limit ≡ some e
      → AllExited (run F hash evs e)
      → let e' = run F hash evs e in
        (e'.metrics.queued ≡ 0)
        × (e'.metrics.active ≡ 0)
        × (total finishes evs e + total discards evs e ≡ total admits evs e)
  exited_balance workers queue_limit evs {e} fits made ended =
      let v' = run-create-Inv F hash workers queue_limit evs fits made in
      let r = run-Rested F hash evs e (create-Rested F workers queue_limit made) in
      let n = gone (run F hash evs e).accepting (run F hash evs e).lanes r ended in
      let b = (run-create-balance workers queue_limit evs fits made).0 in
      omega (arith, n, b, v'.queued_exact, v'.active_exact)
