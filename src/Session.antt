-- ===== src/Session.antt =====
-- CSession (ChatServerShared/CSession.h and .cpp): the sending, closing and login state of one TCP
-- connection. What is posted to the strand is a list of jobs, which may run in any order; a call of
-- Close or StartWrite made on the strand runs at once. The framing of messages is in Framing.
pub mod Steps
pub mod Queue
pub mod Delivery
pub mod Wakeup
pub mod Closing
pub mod Retiring
use cpp_chat.Base.{
  ltb, leb, ◌==◌, if◌then◌else◌, length, Text, bytes, is_positive, int_eq, ℤ, pos, ℕ, ◌+◌, ◌-◌, ◌/◌,
  Bool, true, false, not, ◌&&◌, ◌||◌, Option, none, some, List, [], ◌∷◌, ◌++◌,
}
use cpp_chat.Framing.{max_length, send_node, SendNode}

abbrev pub max_send_queue : ℕ
max_send_queue = 1000

abbrev pub id_voice_audio : ℕ
id_voice_audio = 1073

abbrev pub id_video_image : ℕ
id_video_image = 1075

abbrev pub id_notify_off_line : ℕ
id_notify_off_line = 1021

abbrev pub heartbeat_timeout_seconds : ℕ
heartbeat_timeout_seconds = 20

-- A callback is known by a number.
abbrev pub Callback : Type 0
Callback = ℕ

-- The closures that the session posts or dispatches to its strand.
pub data Job : Type 0 where
  starts_write : Bool → Job
  closes_socket : Option Callback → Job
  drains : ℕ → Callback → Job

pub record Session : Type 0 where
  pub closed : Bool
  pub retiring : Bool
  pub cleanup_started : Bool
  pub user_id : ℤ
  pub device : Text
  pub send_queue : List SendNode
  pub close_after_write : Bool
  pub write_active : Bool
  pub drain_timer_active : Bool
  pub drain_deadline : ℕ
  pub close_handlers : List Callback
  -- The executor's side: pending jobs, the write and the timer wait that are under way, and what the
  -- session has brought about: whole messages on the wire, callbacks made, cleanups handed over.
  pub jobs : List Job
  pub in_flight : Option SendNode
  pub timer_waits : Bool
  pub wire : List SendNode
  pub called : List Callback
  pub cleanups : List ℤ

-- The constructor.
abbrev pub new_session : Session
new_session = record {
  closed = false;
  retiring = false;
  cleanup_started = false;
  user_id = pos 0;
  device = bytes "desktop";
  send_queue = [];
  close_after_write = false;
  write_active = false;
  drain_timer_active = false;
  drain_deadline = 0;
  close_handlers = [];
  jobs = [];
  in_flight = none;
  timer_waits = false;
  wire = [];
  called = [];
  cleanups = [];
}

-- IsClosed.
abbrev pub is_closed : Session → Bool
is_closed s = s.closed || s.retiring

-- BindAuthenticatedUser, but for the table of UserMgr, which Server models.
unfoldable pub bind_authenticated_user : ℤ → Text → Session → Session × Bool
bind_authenticated_user uid device s =
    if not (is_positive uid)
      || (is_closed s || (s.cleanup_started || not (int_eq s.user_id (pos 0))))
    then (s, false)
    else (record s { device = device; user_id = uid }, true)

abbrev pub post : Job → Session → Session
post j s = record s { jobs = s.jobs ++ j ∷ [] }

abbrev pub callback_list : Option Callback → List Callback
callback_list none = []
callback_list (some h) = h ∷ []

-- DealExceptionSession: hands the session over for cleanup, once.
unfoldable pub deal_exception_session : Session → Session
deal_exception_session s =
    if s.cleanup_started
    then s
    else record s { cleanup_started = true; cleanups = s.cleanups ++ s.user_id ∷ [] }

-- CloseOnExecutor.
unfoldable pub close_on_executor : Session → Session
unfolding deal_exception_session
close_on_executor s =
    let t = deal_exception_session (record s { timer_waits = false; send_queue = [] }) in
    record t { called = t.called ++ t.close_handlers; close_handlers = [] }

-- The closure that Close dispatches.
unfoldable pub run_close : Option Callback → Session → Session
unfolding close_on_executor
run_close on_closed s =
    let t = close_on_executor s in record t { called = t.called ++ callback_list on_closed }

abbrev pub is_none {ℓ} : {A : Type ℓ} → Option A → Bool
is_none none = true
is_none (some a) = false

-- Close, called off the strand: the closure is queued.
unfoldable pub close : Option Callback → Session → Session
close on_closed s =
    if s.closed && is_none on_closed
    then s
    else post (closes_socket on_closed) (record s { closed = true })

-- Close, called on the strand, with no callback: `dispatch` runs the closure at once.
unfoldable pub close_here : Session → Session
unfolding run_close
close_here s = if s.closed then s else run_close none (record s { closed = true })

-- The locked section of QueueSend that admits a message.
abbrev pub enqueue : SendNode → Bool → Session → Session
enqueue message close_after s = record s {
  send_queue = s.send_queue ++ message ∷ [];
  close_after_write = close_after;
  retiring = s.retiring || close_after;
}

abbrev pub is_empty {ℓ} : {A : Type ℓ} → List A → Bool
is_empty [] = true
is_empty (x ∷ xs) = false

-- QueueSend.
unfoldable pub queue_send : SendNode → Bool → Bool → Session → Session × Bool
unfolding close
queue_send message close_after realtime s =
    if s.closed || s.close_after_write
    then (s, false)
    else if realtime && leb 10 (length s.send_queue)
    then (s, false)
    else if leb max_send_queue (length s.send_queue)
    then (close none s, false)
    else (
      let t = enqueue message close_after s in
          if is_empty s.send_queue || close_after then post (starts_write close_after) t else t,
      true,
    )

-- Send, of a std::string and of a buffer.
unfoldable pub send : Text → ℕ → Session → Session
unfolding queue_send
send message id s =
    if length message == 0 || (ltb max_length (length message) || ltb 32767 (length message))
    then s
    else (queue_send (send_node message id) false (id == id_voice_audio || id == id_video_image)
        s).0

-- NotifyOffline; `body` is the reply's styled JSON text.
unfoldable pub notify_offline : (ℤ → Text) → ℤ → Session → Session
unfolding queue_send
notify_offline body uid s = (queue_send (send_node (body uid) id_notify_off_line) true false s).0

abbrev pub start_front : List SendNode → Session → Session
start_front [] s = s
start_front (n ∷ rest) s = record s { write_active = true; in_flight = some n }

-- StartWrite.
unfoldable pub start_write : Session → Session
start_write s = if s.closed || s.write_active then s else start_front s.send_queue s

-- ArmDrainDeadline, at the clock's value `now`.
unfoldable pub arm_drain_deadline : ℕ → ℕ → Session → Session
arm_drain_deadline timeout now s =
    if s.closed
    then s
    else if s.drain_timer_active && leb s.drain_deadline (now + timeout)
    then s
    else record s { drain_timer_active = true; drain_deadline = now + timeout; timer_waits = true }

-- The closure of DrainAndClose.
unfoldable pub run_drain : ℕ → Callback → ℕ → Session → Session
unfolding run_close close_here arm_drain_deadline start_write
run_drain timeout on_closed now s =
    if s.closed
    then run_close (some on_closed) s
    else (let t = record s {
      close_handlers = s.close_handlers ++ on_closed ∷ [];
      retiring = true;
      close_after_write = true;
    } in
        if is_empty s.send_queue
        then close_here t
        else start_write (arm_drain_deadline timeout now t))

abbrev pub pop_front {ℓ} : {A : Type ℓ} → List A → List A
pop_front [] = []
pop_front (x ∷ xs) = xs

-- HandleWrite.
unfoldable pub handle_write : Bool → Session → Session
unfolding close_here start_write
handle_write failed s =
    let t = record s { write_active = false; in_flight = none } in
    if s.closed
    then t
    else if failed
    then close_here t
    else (let u = record t { send_queue = pop_front s.send_queue } in
        if is_empty u.send_queue && s.close_after_write then close_here u else start_write u)

-- A job's run on the strand.
unfoldable pub run_job : Job → ℕ → Session → Session
unfolding run_close run_drain start_write arm_drain_deadline
run_job (starts_write final) now s = start_write (if final then arm_drain_deadline 3 now s else s)
run_job (closes_socket on_closed) now s = run_close on_closed s
run_job (drains timeout on_closed) now s = run_drain timeout on_closed now s

-- IsHeartbeatExpired.
abbrev pub is_heartbeat_expired : ℕ → ℕ → Bool
is_heartbeat_expired last now = ltb heartbeat_timeout_seconds (now - last)
