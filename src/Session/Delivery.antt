-- ===== src/Session/Delivery.antt =====
-- What reaches the wire is what was accepted, in order: nothing is reordered, repeated or made up, and
-- nothing is lost before the connection closes.
use cpp_chat.Base.{
  ltb, ◌==◌, if◌then◌else◌, Bool-cases, Option-cases, length, get_elem?, remove_at, length-append,
  all_by-get, Prefix, Prefix-append, Prefix-append_right, Prefix-append_left, Text, ℤ, ℕ, ◌≡◌, refl,
  ◌∙◌, ◌⊎◌, inl, inr, Bool, true, false, ◌||◌, Option, none, some, List, [], ◌∷◌, ◌++◌, append-nil,
  append_assoc, arith,
}
use cpp_chat.Framing.{send_node, SendNode}
use cpp_chat.Session.{
  id_voice_audio, id_video_image, id_notify_off_line, Callback, new_session,
  bind_authenticated_user, run_close, close, close_here, queue_send, send, notify_offline,
  start_front, start_write, arm_drain_deadline, run_drain, pop_front, handle_write, run_job, Job,
  starts_write, closes_socket, drains, Session,
}
use cpp_chat.Session.Steps.{
  finish_write, step, run, Event, sends, notifies_offline, closes, drain_closes, binds, runs,
  write_ends, timer_fires, read_fails,
}
use cpp_chat.Session.Queue.{opens, step-Inv, new_session-Inv, Inv}

abbrev flight : Option SendNode → List SendNode
flight none = []
flight (some n) = n ∷ []

-- `acc` is what the queue has accepted since the connection began.
pub record Delivered (acc : List SendNode) (s : Session) : Type 0 where
  pub all_there : s.closed ≡ false → s.wire ++ s.send_queue ≡ acc
  pub in_order : Prefix (s.wire ++ flight s.in_flight) acc

-- The message that a call adds to a queue: the one it was called with, if the queue has grown.
abbrev grown : SendNode → Session → Session → List SendNode
grown n s t = if ltb (length s.send_queue) (length t.send_queue) then n ∷ [] else []

module _ (offline_body : ℤ → Text) where
  abbrev pub accepted : Event → Session → List SendNode
  accepted (sends m id) s = grown (send_node m id) s (send m id s)
  accepted (notifies_offline uid) s =
      grown (send_node (offline_body uid) id_notify_off_line) s (notify_offline offline_body uid s)
  accepted _ s = []

queue_send-Delivered :
    (n : SendNode) (final realtime : Bool) (acc : List SendNode) (s : Session)
    → Delivered acc s
    → let t = (queue_send n final realtime s).0 in Delivered (acc ++ grown n s t) t
unfolding queue_send
queue_send-Delivered n final realtime acc s d = ground (
  arith,
  length-append s.send_queue (n ∷ []),
  append_assoc s.wire s.send_queue (n ∷ []),
  Prefix-append_right (s.wire ++ flight s.in_flight) acc (n ∷ []),
  append-nil acc,
)

module _ (acc : List SendNode) where
  close-Delivered :
      (h : Option Callback) (s : Session) → Delivered acc s → Delivered acc (close h s)
  unfolding close
  close-Delivered h s d = ground arith

  close_here-Delivered : (s : Session) → Delivered acc s → Delivered acc (close_here s)
  unfolding close_here
  close_here-Delivered s d = ground arith

  run_close-Delivered :
      (h : Option Callback) (s : Session)
      → s.closed ≡ true
      → Delivered acc s
      → Delivered acc (run_close h s)
  unfolding run_close
  run_close-Delivered h s c d = ground arith

  arm-Delivered :
      (timeout now : ℕ) (s : Session)
      → Delivered acc s
      → Delivered acc (arm_drain_deadline timeout now s)
  unfolding arm_drain_deadline
  arm-Delivered timeout now s d = ground arith

  Prefix_front :
      (n : SendNode) (wire rest : List SendNode)
      → wire ++ n ∷ rest ≡ acc
      → Prefix (wire ++ n ∷ []) acc
  Prefix_front n wire rest e =
      rw (← e, ← append_assoc wire (n ∷ []) rest) (Prefix-append (wire ++ n ∷ []) rest)

  start_front-Delivered :
      (q : List SendNode) (s : Session)
      → s.send_queue ≡ q
      → s.closed ≡ false
      → Delivered acc s
      → Delivered acc (start_front q s)
  start_front-Delivered [] s e c d = d
  start_front-Delivered (n ∷ rest) s e c d = record {
    all_there = d.all_there;
    in_order = Prefix_front n s.wire rest (rw (← e) (d.all_there c));
  }

  start_write-Delivered : (s : Session) → Delivered acc s → Delivered acc (start_write s)
  unfolding start_write
  start_write-Delivered s d = ground (arith, start_front-Delivered s.send_queue s refl)

  run_drain-Delivered :
      (timeout : ℕ) (h : Callback) (now : ℕ) (s : Session)
      → Delivered acc s
      → Delivered acc (run_drain timeout h now s)
  unfolding run_drain
  run_drain-Delivered timeout h now s d =
      let t = record s {
        close_handlers = s.close_handlers ++ h ∷ [];
        retiring = true;
        close_after_write = true;
      } in
      let dt : Delivered acc t = record { all_there = d.all_there; in_order = d.in_order } in
      ground (
        arith,
        run_close-Delivered (some h) s,
        close_here-Delivered t dt,
        start_write-Delivered (arm_drain_deadline timeout now t) (arm-Delivered timeout now t dt),
      )

  run_job-Delivered :
      (j : Job) (now : ℕ) (s : Session)
      → (s.closed ≡ false → opens j ≡ true)
      → Delivered acc s
      → Delivered acc (run_job j now s)
  unfolding run_job
  run_job-Delivered (starts_write true) now s o d =
      start_write-Delivered (arm_drain_deadline 3 now s) (arm-Delivered 3 now s d)
  run_job-Delivered (starts_write false) now s o d = start_write-Delivered s d
  run_job-Delivered (closes_socket h) now s o d = run_close-Delivered h s (ground arith) d
  run_job-Delivered (drains timeout h) now s o d = run_drain-Delivered timeout h now s d

  ended-Delivered :
      (s : Session)
      → Delivered acc s
      → Delivered acc (record s { write_active = false; in_flight = none })
  ended-Delivered s d = record {
    all_there = d.all_there;
    in_order = rw append-nil (Prefix-append_left s.wire (flight s.in_flight) acc d.in_order);
  }

  -- The front message of an open connection is written: it moves from the queue to the wire.
  written-Delivered :
      (n : SendNode) (q : List SendNode) (s : Session)
      → Inv s
      → s.in_flight ≡ some n
      → s.send_queue ≡ q
      → s.closed ≡ false
      → Delivered acc s
      → s.wire ++ n ∷ pop_front q ≡ acc
  written-Delivered n [] s v f e c d = absurd (ground (arith, v.front c))
  written-Delivered n (x ∷ rest) s v f e c d =
      let same : n ≡ x = ground (arith, v.front c) in rw (same, ← e) (d.all_there c)

  handle_ok-Delivered :
      (n : SendNode) (s : Session)
      → Inv s
      → s.in_flight ≡ some n
      → Delivered acc s
      → Delivered acc (handle_write false (record s { wire = s.wire ++ n ∷ [] }))
  unfolding handle_write
  handle_ok-Delivered n s v f d =
      let t = record s { wire = s.wire ++ n ∷ []; write_active = false; in_flight = none } in
      let u = record t { send_queue = pop_front s.send_queue } in
      let whole : Prefix ((s.wire ++ n ∷ []) ++ []) acc = rw append-nil (rw f at d.in_order) in
      elim (Bool-cases s.closed) [
        | inl shut ↦ rw shut (record { all_there = λ c. absurd (cc (shut, c)); in_order = whole })
        | inr up ↦
            let du : Delivered acc u = record {
              all_there = λ c.
                  append_assoc s.wire (n ∷ []) (pop_front s.send_queue)
                  ∙ written-Delivered n s.send_queue s v f refl up d;
              in_order = whole;
            } in
            ground (arith, close_here-Delivered u du, start_write-Delivered u du)
      ]

  finish_write-Delivered :
      (failed : Bool) (o : Option SendNode) (s : Session)
      → Inv s
      → s.in_flight ≡ o
      → Delivered acc s
      → Delivered acc (finish_write failed o s)
  finish_write-Delivered failed none s v f d = d
  finish_write-Delivered false (some n) s v f d = handle_ok-Delivered n s v f d
  finish_write-Delivered true (some n) s v f d =
      unfold handle_write in
      ground (
        arith,
        ended-Delivered s d,
        close_here-Delivered (record s { write_active = false; in_flight = none })
            (ended-Delivered s d),
      )

step-Delivered :
    (offline_body : ℤ → Text) (ev : Event) (acc : List SendNode) (s : Session)
    → Inv s
    → Delivered acc s
    → Delivered (acc ++ accepted offline_body ev s) (step offline_body ev s)
unfolding step
step-Delivered body (sends m id) acc s v d =
    unfold send in
    ground (
      arith,
      append-nil acc,
      queue_send-Delivered (send_node m id) false (id == id_voice_audio || id == id_video_image) acc
          s d,
    )
step-Delivered body (notifies_offline uid) acc s v d =
    unfold notify_offline in
    queue_send-Delivered (send_node (body uid) id_notify_off_line) true false acc s d
step-Delivered body (closes h) acc s v d = rw append-nil (close-Delivered acc h s d)
step-Delivered body (drain_closes timeout h) acc s v d =
    rw append-nil (record { all_there = d.all_there; in_order = d.in_order })
step-Delivered body (binds uid device) acc s v d =
    unfold bind_authenticated_user in ground (arith, append-nil acc)
step-Delivered body (runs k now) acc s v d =
    rw append-nil (elim (Option-cases (get_elem? s.jobs k)) [
      | inl g ↦ rw g d
      | inr (j, g) ↦ rw g (
          run_job-Delivered acc j now (record s { jobs = remove_at s.jobs k })
            (λ c. ground (arith, all_by-get opens s.jobs k g, v.open_jobs c))
            (record { all_there = d.all_there; in_order = d.in_order }))
    ])
step-Delivered body (write_ends failed) acc s v d =
    rw append-nil (finish_write-Delivered acc failed s.in_flight s v refl d)
step-Delivered body timer_fires acc s v d = ground (
  arith,
  append-nil acc,
  close_here-Delivered acc (record s { timer_waits = false })
      (record { all_there = d.all_there; in_order = d.in_order }),
)
step-Delivered body read_fails acc s v d = rw append-nil (close_here-Delivered acc s d)

module _ (offline_body : ℤ → Text) where
  -- The messages that a connection's queue accepts during a run, in order.
  unfoldable pub accepted_in : List Event → Session → List SendNode
  accepted_in [] s = []
  accepted_in (ev ∷ evs) s = accepted offline_body ev s ++ accepted_in evs (step offline_body ev s)

  run-Delivered :
      (evs : List Event) (acc : List SendNode) (s : Session)
      → Inv s
      → Delivered acc s
      → Delivered (acc ++ accepted_in evs s) (run offline_body evs s)
  unfolding run accepted_in
  run-Delivered [] acc s v d = rw append-nil d
  run-Delivered (ev ∷ evs) acc s v d =
      let s' = step offline_body ev s in
      rw (← append_assoc acc (accepted offline_body ev s) (accepted_in evs s')) (
        run-Delivered evs (acc ++ accepted offline_body ev s) s' (step-Inv offline_body ev s v)
          (step-Delivered offline_body ev acc s v d))

  -- On a new connection, after any events, the messages on the wire are a prefix of those that the
  -- queue accepted, in that order, and while the connection is open the wire followed by the queue is
  -- all that was accepted.
  pub run-in_order :
      (evs : List Event)
      → let s = run offline_body evs new_session in
        Prefix s.wire (accepted_in evs new_session)
        × ((s.closed ≡ true) ⊎ (s.wire ++ s.send_queue ≡ accepted_in evs new_session))
  run-in_order evs =
      let s = run offline_body evs new_session in
      let d =
        run-Delivered evs [] new_session new_session-Inv
          (record { all_there = λ c. refl; in_order = tt }) in
      (
        Prefix-append_left s.wire (flight s.in_flight) (accepted_in evs new_session) d.in_order,
        elim (Bool-cases s.closed) [ inl shut ↦ inl shut | inr up ↦ inr (d.all_there up) ],
      )
