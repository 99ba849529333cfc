-- ===== src/Session/Retiring.antt =====
-- The final notice of a session that is kicked out: it is the last message that its queue accepts.
use cpp_chat.Base.{
  Option-cases, length, get_elem?, remove_at, length-append, Text, ℤ, ℕ, ◌<◌, ◌≡◌, refl, inl, inr,
  Bool, true, false, Option, none, some, List, [], ◌∷◌, arith,
}
use cpp_chat.Framing.{send_node, SendNode}
use cpp_chat.Session.{
  max_send_queue, id_notify_off_line, is_closed, bind_authenticated_user, run_close, close,
  close_here, queue_send, send, notify_offline, start_write, arm_drain_deadline, run_drain,
  handle_write, run_job, Job, starts_write, closes_socket, drains, Session,
}
use cpp_chat.Session.Steps.{
  finish_write, step, Event, sends, notifies_offline, closes, drain_closes, binds, runs, write_ends,
  timer_fires, read_fails,
}
use cpp_chat.Session.Delivery.{accepted, accepted_in}

-- A session that closes after its last write goes on so.
run_job-keeps :
    (j : Job) (now : ℕ) (s : Session)
    → s.close_after_write ≡ true
    → (run_job j now s).close_after_write ≡ true
unfolding run_job
run_job-keeps (starts_write final) now s h = unfold start_write arm_drain_deadline in ground arith
run_job-keeps (closes_socket c) now s h = unfold run_close in ground arith
run_job-keeps (drains timeout c) now s h = unfold run_drain in ground arith

finish_write-keeps :
    (failed : Bool) (o : Option SendNode) (s : Session)
    → s.close_after_write ≡ true
    → (finish_write failed o s).close_after_write ≡ true
unfolding handle_write
finish_write-keeps failed none s h = h
finish_write-keeps true (some n) s h = ground arith
finish_write-keeps false (some n) s h = ground arith

module _ (offline_body : ℤ → Text) where
  step-ended :
      (ev : Event) (s : Session)
      → s.close_after_write ≡ true
      → (accepted offline_body ev s ≡ []) × ((step offline_body ev s).close_after_write ≡ true)
  unfolding step send notify_offline queue_send
  step-ended (sends m id) s h = ground arith
  step-ended (notifies_offline uid) s h = ground arith
  step-ended (closes c) s h = unfold close in ground arith
  step-ended (drain_closes timeout c) s h = (refl, h)
  step-ended (binds uid device) s h = unfold bind_authenticated_user in ground arith
  step-ended (runs k now) s h = elim (Option-cases (get_elem? s.jobs k)) [
    | inl g ↦ (refl, rw g h)
    | inr (j, g) ↦ (refl, rw g (run_job-keeps j now (record s { jobs = remove_at s.jobs k }) h))
  ]
  step-ended (write_ends failed) s h = (refl, finish_write-keeps failed s.in_flight s h)
  step-ended timer_fires s h = unfold close_here in ground arith
  step-ended read_fails s h = unfold close_here in ground arith

  run-ended :
      (evs : List Event) (s : Session)
      → s.close_after_write ≡ true
      → accepted_in offline_body evs s ≡ []
  unfolding accepted_in
  run-ended [] s h = refl
  run-ended (ev ∷ evs) s h =
      let r = step-ended ev s h in rw (r.0, run-ended evs (step offline_body ev s) r.1)

  -- The notice of NotifyOffline, to a session that is open, not yet closing and not overloaded, is
  -- accepted, retires the session (no login and no request is taken any more), and is the last message
  -- that its queue ever accepts.
  pub notice_is_last :
      (uid : ℤ) (evs : List Event) (s : Session)
      → s.closed ≡ false
      → s.close_after_write ≡ false
      → length s.send_queue < max_send_queue
      → (is_closed (step offline_body (notifies_offline uid) s) ≡ true)
        × (accepted_in offline_body (notifies_offline uid ∷ evs) s
            ≡ send_node (offline_body uid) id_notify_off_line ∷ [])
  unfolding accepted_in step notify_offline queue_send
  notice_is_last uid evs s up going room = ground (
    arith,
    length-append s.send_queue (send_node (offline_body uid) id_notify_off_line ∷ []),
    run-ended evs (step offline_body (notifies_offline uid) s),
  )
