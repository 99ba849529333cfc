-- ===== src/Session/Steps.antt =====
-- The events of a connection: calls from any thread, jobs that the strand runs, and the completions of
-- the write, the timer and a failed read. A run is any sequence of them.
use cpp_chat.Base.{
  if◌then◌else◌, get_elem?, remove_at, Text, ℤ, ℕ, Bool, true, false, Option, none, some, List, [],
  ◌∷◌, ◌++◌,
}
use cpp_chat.Framing.{SendNode}
use cpp_chat.Session.{
  Callback, bind_authenticated_user, post, close, close_here, send, notify_offline, handle_write,
  run_job, Job, drains, Session,
}

pub data Event : Type 0 where
  sends : Text → ℕ → Event
  notifies_offline : ℤ → Event
  closes : Option Callback → Event
  drain_closes : ℕ → Callback → Event
  binds : ℤ → Text → Event
  runs : ℕ → ℕ → Event
  write_ends : Bool → Event
  timer_fires : Event
  read_fails : Event

-- The completion handler of async_write: a write that succeeds has put the whole node on the wire.
abbrev pub finish_write : Bool → Option SendNode → Session → Session
finish_write failed none s = s
finish_write true (some n) s = handle_write true s
finish_write false (some n) s = handle_write false (record s { wire = s.wire ++ n ∷ [] })

abbrev pub run_at : ℕ → ℕ → Option Job → Session → Session
run_at k now none s = s
run_at k now (some j) s = run_job j now (record s { jobs = remove_at s.jobs k })

module _ (offline_body : ℤ → Text) where
  unfoldable pub step : Event → Session → Session
  step (sends message id) s = send message id s
  step (notifies_offline uid) s = notify_offline offline_body uid s
  step (closes on_closed) s = close on_closed s
  step (drain_closes timeout on_closed) s = post (drains timeout on_closed) s
  step (binds uid device) s = (bind_authenticated_user uid device s).0
  step (runs k now) s = run_at k now (get_elem? s.jobs k) s
  step (write_ends failed) s = finish_write failed s.in_flight s
  step timer_fires s = if s.timer_waits then close_here (record s { timer_waits = false }) else s
  step read_fails s = close_here s

  unfoldable pub run : List Event → Session → Session
  run [] s = s
  run (ev ∷ evs) s = run evs (step ev s)
