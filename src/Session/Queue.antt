-- ===== src/Session/Queue.antt =====
-- The send queue is bounded, and while the connection is open the write under way is of its front.
use cpp_chat.Base.{
  ◌==◌, if◌then◌else◌, Option-cases, length, get_elem?, remove_at, head?, is_some, all_by,
  length-append, all_by-append, all_by-get, Text, ℤ, ℕ, ◌≤◌, ◌≡◌, refl, inl, inr, Bool, true, false,
  ◌||◌, Option, none, some, List, [], ◌∷◌, ◌++◌, arith,
}
use cpp_chat.Framing.{send_node, SendNode}
use cpp_chat.Session.{
  max_send_queue, id_voice_audio, id_video_image, id_notify_off_line, Callback, new_session,
  bind_authenticated_user, run_close, close, close_here, is_empty, queue_send, send, notify_offline,
  start_write, arm_drain_deadline, handle_write, run_job, Job, starts_write, closes_socket, drains,
  Session,
}
use cpp_chat.Session.Steps.{
  finish_write, step, run, Event, sends, notifies_offline, closes, drain_closes, binds, runs,
  write_ends, timer_fires, read_fails,
}

abbrev pub opens : Job → Bool
opens (closes_socket h) = false
opens (starts_write b) = true
opens (drains timeout h) = true

-- At most 1000 messages wait; a write is under way exactly while `write_active_` says so; while the
-- connection is open that write is of the front of the queue, and no job is there to close the socket.
pub record Inv (s : Session) : Type 0 where
  pub bounded : length s.send_queue ≤ max_send_queue
  pub one_write : is_some s.in_flight ≡ s.write_active
  pub front : s.closed ≡ false → s.write_active ≡ true → s.in_flight ≡ head? s.send_queue
  pub open_jobs : s.closed ≡ false → all_by opens s.jobs ≡ true

head?-append :
    {A : Type 0} (xs ys : List A) → head? (xs ++ ys) ≡ (if is_empty xs then head? ys else head? xs)
head?-append [] ys = refl
head?-append (x ∷ xs) ys = refl

active_nonempty :
    (o : Option SendNode) (q : List SendNode) → is_some o ≡ true → o ≡ head? q → is_empty q ≡ false
active_nonempty none q h e = cc
active_nonempty (some x) [] h e = cc
active_nonempty (some x) (y ∷ q) h e = refl

queue_send-Inv :
    (n : SendNode) (final realtime : Bool) (s : Session)
    → Inv s
    → Inv (queue_send n final realtime s).0
unfolding queue_send
queue_send-Inv n final realtime s v = ground (
  arith,
  length-append s.send_queue (n ∷ []),
  head?-append s.send_queue (n ∷ []),
  active_nonempty s.in_flight s.send_queue,
  all_by-append opens s.jobs (starts_write final ∷ []),
)

send-Inv : (m : Text) (id : ℕ) (s : Session) → Inv s → Inv (send m id s)
unfolding send
send-Inv m id s v = ground (
  arith,
  queue_send-Inv (send_node m id) false (id == id_voice_audio || id == id_video_image) s v,
)

close-Inv : (h : Option Callback) (s : Session) → Inv s → Inv (close h s)
unfolding close
close-Inv h s v = ground arith

close_here-Inv : (s : Session) → Inv s → Inv (close_here s)
unfolding close_here
close_here-Inv s v = ground arith

start_write-Inv : (s : Session) → Inv s → Inv (start_write s)
unfolding start_write
start_write-Inv s v = ground arith

arm-Inv : (timeout now : ℕ) (s : Session) → Inv s → Inv (arm_drain_deadline timeout now s)
unfolding arm_drain_deadline
arm-Inv timeout now s v = ground arith

run_close-Inv : (h : Option Callback) (s : Session) → s.closed ≡ true → Inv s → Inv (run_close h s)
unfolding run_close
run_close-Inv h s c v = ground arith

run_job-Inv :
    (j : Job) (now : ℕ) (s : Session)
    → (s.closed ≡ false → opens j ≡ true)
    → Inv s
    → Inv (run_job j now s)
unfolding run_job
run_job-Inv (starts_write final) now s o v = ground arith
run_job-Inv (closes_socket h) now s o v = run_close-Inv h s (ground arith) v
run_job-Inv (drains timeout h) now s o v = ground arith

handle_write-Inv : (failed : Bool) (s : Session) → Inv s → Inv (handle_write failed s)
unfolding handle_write
handle_write-Inv failed s v = ground arith

finish_write-Inv :
    (failed : Bool) (o : Option SendNode) (s : Session) → Inv s → Inv (finish_write failed o s)
finish_write-Inv failed none s v = v
finish_write-Inv true (some n) s v = handle_write-Inv true s v
finish_write-Inv false (some n) s v =
    handle_write-Inv false (record s { wire = s.wire ++ n ∷ [] }) (ground arith)

pub step-Inv :
    (offline_body : ℤ → Text) (ev : Event) (s : Session) → Inv s → Inv (step offline_body ev s)
unfolding step
step-Inv body (sends m id) s v = send-Inv m id s v
step-Inv body (notifies_offline uid) s v =
    unfold notify_offline in queue_send-Inv (send_node (body uid) id_notify_off_line) true false s v
step-Inv body (closes h) s v = close-Inv h s v
step-Inv body (drain_closes timeout h) s v =
    ground (arith, all_by-append opens s.jobs (drains timeout h ∷ []))
step-Inv body (binds uid device) s v = unfold bind_authenticated_user in ground arith
step-Inv body (runs k now) s v = elim (Option-cases (get_elem? s.jobs k)) [
  | inl g ↦ rw g v
  | inr (j, g) ↦ rw g (
      run_job-Inv j now (record s { jobs = remove_at s.jobs k })
        (λ c. ground (arith, all_by-get opens s.jobs k g))
        (ground (arith, all_by-get opens s.jobs k g)))
]
step-Inv body (write_ends failed) s v = finish_write-Inv failed s.in_flight s v
step-Inv body timer_fires s v = ground (arith, close_here-Inv (record s { timer_waits = false }))
step-Inv body read_fails s v = close_here-Inv s v

-- From a session where the invariant holds, it holds after any events.
run-Inv :
    (offline_body : ℤ → Text) (evs : List Event) (s : Session)
    → Inv s
    → Inv (run offline_body evs s)
unfolding run
run-Inv body [] s v = v
run-Inv body (ev ∷ evs) s v = run-Inv body evs (step body ev s) (step-Inv body ev s v)

pub new_session-Inv : Inv new_session
new_session-Inv = ground arith

-- After any events on a new connection, its send queue holds at most 1000 messages, a write is under
-- way exactly while `write_active_` is set, and while the connection is open that write is of the
-- message at the front of the queue.
pub run-new-Inv :
    (offline_body : ℤ → Text) (evs : List Event) → Inv (run offline_body evs new_session)
run-new-Inv body evs = run-Inv body evs new_session new_session-Inv
