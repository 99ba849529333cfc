-- ===== src/Session/Closing.antt =====
-- The end of a connection: it is cleaned up once, for the user that it ends with, and every callback
-- that waits for the end is called.
use cpp_chat.Base.{
  ◌==◌, if◌then◌else◌, Bool-cases, Option-cases, get_elem?, remove_at, any_by, any_by-append,
  any_by-get, all_by-get, Text, ℤ, ℕ, ◌≡◌, refl, inl, inr, Bool, true, false, ◌||◌, Option, none,
  some, List, [], ◌∷◌, ◌++◌, arith,
}
use cpp_chat.Framing.{send_node, SendNode}
use cpp_chat.Session.{
  id_voice_audio, id_video_image, id_notify_off_line, Callback, new_session,
  bind_authenticated_user, run_close, close, close_here, queue_send, send, notify_offline,
  start_write, arm_drain_deadline, run_drain, pop_front, handle_write, run_job, Job, starts_write,
  closes_socket, drains, Session,
}
use cpp_chat.Session.Steps.{
  finish_write, step, run, Event, sends, notifies_offline, closes, drain_closes, binds, runs,
  write_ends, timer_fires, read_fails,
}
use cpp_chat.Session.Queue.{opens, step-Inv, new_session-Inv, Inv}

abbrev pub closing : Job → Bool
closing (closes_socket h) = true
closing (starts_write b) = false
closing (drains timeout h) = false

pub record Ends (s : Session) : Type 0 where
  pub cleaned : s.cleanups ≡ (if s.cleanup_started then s.user_id ∷ [] else [])
  pub closed_first : s.cleanup_started ≡ true → s.closed ≡ true
  pub cleanup_comes : s.closed ≡ true → (s.cleanup_started || any_by closing s.jobs) ≡ true
  pub none_waits : s.cleanup_started ≡ true → s.close_handlers ≡ []

queue_send-Ends :
    (n : SendNode) (final realtime : Bool) (s : Session)
    → Ends s
    → Ends (queue_send n final realtime s).0
unfolding queue_send
queue_send-Ends n final realtime s e = ground (
  arith,
  any_by-append closing s.jobs (starts_write final ∷ []),
  any_by-append closing s.jobs (closes_socket none ∷ []),
)

send-Ends : (m : Text) (id : ℕ) (s : Session) → Ends s → Ends (send m id s)
unfolding send
send-Ends m id s e = ground (
  arith,
  queue_send-Ends (send_node m id) false (id == id_voice_audio || id == id_video_image) s e,
)

close-Ends : (h : Option Callback) (s : Session) → Ends s → Ends (close h s)
unfolding close
close-Ends h s e = ground (arith, any_by-append closing s.jobs (closes_socket h ∷ []))

-- Whatever closed the socket, CloseOnExecutor leaves a cleaned session.
run_close-Ends :
    (h : Option Callback) (s : Session)
    → s.closed ≡ true
    → s.cleanups ≡ (if s.cleanup_started then s.user_id ∷ [] else [])
    → Ends (run_close h s)
unfolding run_close
run_close-Ends h s c e = ground arith

close_here-Ends : (s : Session) → Ends s → Ends (close_here s)
unfolding close_here
close_here-Ends s e =
    ground (arith, run_close-Ends none (record s { closed = true }) refl e.cleaned)

start_write-Ends : (s : Session) → Ends s → Ends (start_write s)
unfolding start_write
start_write-Ends s e = ground arith

arm-Ends : (timeout now : ℕ) (s : Session) → Ends s → Ends (arm_drain_deadline timeout now s)
unfolding arm_drain_deadline
arm-Ends timeout now s e = ground arith

run_drain-Ends :
    (timeout : ℕ) (h : Callback) (now : ℕ) (s : Session) → Ends s → Ends (run_drain timeout h now s)
unfolding run_drain
run_drain-Ends timeout h now s e =
    let t = record s {
      close_handlers = s.close_handlers ++ h ∷ [];
      retiring = true;
      close_after_write = true;
    } in
    elim (Bool-cases s.closed) [
      | inl shut ↦ ground (arith, run_close-Ends (some h) s shut e.cleaned)
      | inr up ↦
          let et : Ends t = ground arith in
          ground (
            arith,
            close_here-Ends t et,
            start_write-Ends (arm_drain_deadline timeout now t) (arm-Ends timeout now t et),
          )
    ]

-- A job that is taken from the list and run.
run_job-Ends :
    (j : Job) (now k : ℕ) (s : Session)
    → (s.closed ≡ false → opens j ≡ true)
    → get_elem? s.jobs k ≡ some j
    → Ends s
    → Ends (run_job j now (record s { jobs = remove_at s.jobs k }))
unfolding run_job
run_job-Ends (starts_write b) now k s o g e =
    let t = record s { jobs = remove_at s.jobs k } in
    let et : Ends t = ground (arith, any_by-get closing s.jobs k g) in
    ground (
      arith,
      start_write-Ends t et,
      start_write-Ends (arm_drain_deadline 3 now t) (arm-Ends 3 now t et),
    )
run_job-Ends (closes_socket h) now k s o g e =
    run_close-Ends h (record s { jobs = remove_at s.jobs k }) (ground arith) e.cleaned
run_job-Ends (drains timeout h) now k s o g e =
    let t = record s { jobs = remove_at s.jobs k } in
    run_drain-Ends timeout h now t (ground (arith, any_by-get closing s.jobs k g))

handle_write-Ends : (failed : Bool) (s : Session) → Ends s → Ends (handle_write failed s)
unfolding handle_write
handle_write-Ends failed s e =
    let t = record s { write_active = false; in_flight = none } in
    let u = record t { send_queue = pop_front s.send_queue } in
    let et : Ends t = ground arith in
    let eu : Ends u = ground arith in
    ground (arith, close_here-Ends t et, close_here-Ends u eu, start_write-Ends u eu)

finish_write-Ends :
    (failed : Bool) (o : Option SendNode) (s : Session) → Ends s → Ends (finish_write failed o s)
finish_write-Ends failed none s e = e
finish_write-Ends true (some n) s e = handle_write-Ends true s e
finish_write-Ends false (some n) s e =
    handle_write-Ends false (record s { wire = s.wire ++ n ∷ [] }) (ground arith)

bind-Ends :
    (uid : ℤ) (device : Text) (s : Session) → Ends s → Ends (bind_authenticated_user uid device s).0
unfolding bind_authenticated_user
bind-Ends uid device s e = ground arith

step-Ends :
    (offline_body : ℤ → Text) (ev : Event) (s : Session)
    → Inv s
    → Ends s
    → Ends (step offline_body ev s)
unfolding step
step-Ends body (sends m id) s v e = send-Ends m id s e
step-Ends body (notifies_offline uid) s v e =
    unfold notify_offline in
    queue_send-Ends (send_node (body uid) id_notify_off_line) true false s e
step-Ends body (closes h) s v e = close-Ends h s e
step-Ends body (drain_closes timeout h) s v e =
    ground (arith, any_by-append closing s.jobs (drains timeout h ∷ []))
step-Ends body (binds uid device) s v e = bind-Ends uid device s e
step-Ends body (runs k now) s v e = elim (Option-cases (get_elem? s.jobs k)) [
  | inl g ↦ rw g e
  | inr (j, g) ↦
      rw g (
        run_job-Ends j now k s (λ c. ground (arith, all_by-get opens s.jobs k g, v.open_jobs c)) g
          e)
]
step-Ends body (write_ends failed) s v e = finish_write-Ends failed s.in_flight s e
step-Ends body timer_fires s v e =
    let t = record s { timer_waits = false } in
    let et : Ends t = ground arith in ground (arith, close_here-Ends t et)
step-Ends body read_fails s v e = close_here-Ends s e

run-Ends :
    (offline_body : ℤ → Text) (evs : List Event) (s : Session)
    → Inv s
    → Ends s
    → Ends (run offline_body evs s)
unfolding run
run-Ends body [] s v e = e
run-Ends body (ev ∷ evs) s v e =
    run-Ends body evs (step body ev s) (step-Inv body ev s v) (step-Ends body ev s v e)

-- On a new connection, after any events: the session has been handed over for cleanup at most once,
-- and if so for the user that it has (so that no login can slip in behind its cleanup) and
-- only after it was closed; once it is closed, it has been handed over or the job that does so is
-- pending; and after the hand-over no callback of DrainAndClose is left uncalled.
pub run-new-Ends :
    (offline_body : ℤ → Text) (evs : List Event) → Ends (run offline_body evs new_session)
run-new-Ends body evs = run-Ends body evs new_session new_session-Inv (ground arith)
