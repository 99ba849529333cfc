-- ===== src/Session/Wakeup.antt =====
-- No message waits for nothing: while an open connection has messages in its queue, a write is under
-- way or a job that starts one is pending.
use cpp_chat.Base.{
  ◌==◌, Option-cases, get_elem?, remove_at, any_by, any_by-append, all_by-get, Text, ℤ, ℕ, ◌≡◌,
  refl, ◌⊎◌, inl, inr, Bool, true, false, ◌||◌, Option, none, some, List, [], ◌∷◌, ◌++◌, arith,
}
use cpp_chat.Framing.{send_node, SendNode}
use cpp_chat.Session.{
  id_voice_audio, id_video_image, id_notify_off_line, Callback, new_session,
  bind_authenticated_user, run_close, close, close_here, is_empty, queue_send, send, notify_offline,
  start_write, arm_drain_deadline, run_drain, handle_write, run_job, Job, starts_write,
  closes_socket, drains, Session,
}
use cpp_chat.Session.Steps.{
  finish_write, step, run, Event, sends, notifies_offline, closes, drain_closes, binds, runs,
  write_ends, timer_fires, read_fails,
}
use cpp_chat.Session.Queue.{opens, step-Inv, new_session-Inv, Inv}

abbrev pub starts : Job → Bool
starts (starts_write b) = true
starts (closes_socket h) = false
starts (drains timeout h) = false

abbrev pub is_awake : Session → Bool
is_awake s = s.closed || (is_empty s.send_queue || (s.write_active || any_by starts s.jobs))

queue_send-awake :
    (n : SendNode) (final realtime : Bool) (s : Session)
    → is_awake s ≡ true
    → is_awake (queue_send n final realtime s).0 ≡ true
unfolding queue_send
queue_send-awake n final realtime s a =
    ground (arith, any_by-append starts s.jobs (starts_write final ∷ []))

send-awake : (m : Text) (id : ℕ) (s : Session) → is_awake s ≡ true → is_awake (send m id s) ≡ true
unfolding send
send-awake m id s a = ground (
  arith,
  queue_send-awake (send_node m id) false (id == id_voice_audio || id == id_video_image) s a,
)

close-awake : (h : Option Callback) (s : Session) → is_awake s ≡ true → is_awake (close h s) ≡ true
unfolding close
close-awake h s a = ground arith

close_here-awake : (s : Session) → is_awake (close_here s) ≡ true
unfolding close_here
close_here-awake s = ground arith

-- StartWrite leaves no message waiting for nothing, whatever it finds.
start_write-awake : (s : Session) → is_awake (start_write s) ≡ true
unfolding start_write
start_write-awake s = ground arith

run_drain-awake :
    (timeout : ℕ) (h : Callback) (now : ℕ) (s : Session)
    → is_awake (run_drain timeout h now s) ≡ true
unfolding run_drain
run_drain-awake timeout h now s =
    let t = record s {
      close_handlers = s.close_handlers ++ h ∷ [];
      retiring = true;
      close_after_write = true;
    } in
    ground (arith, close_here-awake t, start_write-awake (arm_drain_deadline timeout now t))

run_job-awake :
    (j : Job) (now : ℕ) (s : Session)
    → (s.closed ≡ false → opens j ≡ true)
    → is_awake (run_job j now s) ≡ true
unfolding run_job
run_job-awake (starts_write true) now s o = start_write-awake (arm_drain_deadline 3 now s)
run_job-awake (starts_write false) now s o = start_write-awake s
run_job-awake (closes_socket h) now s o = unfold run_close in ground arith
run_job-awake (drains timeout h) now s o = run_drain-awake timeout h now s

handle_write-awake : (failed : Bool) (s : Session) → is_awake (handle_write failed s) ≡ true
unfolding handle_write
handle_write-awake failed s = ground arith

finish_write-awake :
    (failed : Bool) (o : Option SendNode) (s : Session)
    → is_awake s ≡ true
    → is_awake (finish_write failed o s) ≡ true
finish_write-awake failed none s a = a
finish_write-awake true (some n) s a = handle_write-awake true s
finish_write-awake false (some n) s a =
    handle_write-awake false (record s { wire = s.wire ++ n ∷ [] })

step-awake :
    (offline_body : ℤ → Text) (ev : Event) (s : Session)
    → Inv s
    → is_awake s ≡ true
    → is_awake (step offline_body ev s) ≡ true
unfolding step
step-awake body (sends m id) s v a = send-awake m id s a
step-awake body (notifies_offline uid) s v a =
    unfold notify_offline in
    queue_send-awake (send_node (body uid) id_notify_off_line) true false s a
step-awake body (closes h) s v a = close-awake h s a
step-awake body (drain_closes timeout h) s v a =
    ground (arith, any_by-append starts s.jobs (drains timeout h ∷ []))
step-awake body (binds uid device) s v a = unfold bind_authenticated_user in ground arith
step-awake body (runs k now) s v a = elim (Option-cases (get_elem? s.jobs k)) [
  | inl g ↦ rw g a
  | inr (j, g) ↦ rw g (
      run_job-awake j now (record s { jobs = remove_at s.jobs k })
        (λ c. ground (arith, all_by-get opens s.jobs k g, v.open_jobs c)))
]
step-awake body (write_ends failed) s v a = finish_write-awake failed s.in_flight s a
step-awake body timer_fires s v a =
    ground (arith, close_here-awake (record s { timer_waits = false }))
step-awake body read_fails s v a = close_here-awake s

run-awake :
    (offline_body : ℤ → Text) (evs : List Event) (s : Session)
    → Inv s
    → is_awake s ≡ true
    → is_awake (run offline_body evs s) ≡ true
unfolding run
run-awake body [] s v a = a
run-awake body (ev ∷ evs) s v a =
    run-awake body evs (step body ev s) (step-Inv body ev s v) (step-awake body ev s v a)

-- On a new connection, after any events: if it is open and messages wait in its queue, then a write is
-- under way, or a job that calls StartWrite is pending. So no message is left without a write.
pub run-no_lost_wakeup :
    (offline_body : ℤ → Text) (evs : List Event)
    → let s = run offline_body evs new_session in
      (s.closed ≡ true)
      ⊎ (is_empty s.send_queue ≡ true)
      ⊎ (s.write_active ≡ true)
      ⊎ (any_by starts s.jobs ≡ true)
run-no_lost_wakeup body evs =
    let a = run-awake body evs new_session new_session-Inv refl in ground arith
